-- ===== src/Rsync/Scan/Roll.antt =====
-- One round of the outer loop of `ScanNewFile`, the inner loop included: it is defined, keeps the
-- invariant, and moves on by a block.
use just_for_test_and_try.Base.{
  ℕ, zero, suc, ◌+◌, ◌-◌, ◌≤◌, ◌≡◌, refl, sym, subst, ◌∙◌, min, Bool, Option, some, List, [], ◌∷◌,
  ◌++◌, arith, length, length-drop, drop, slice, get_elem?, get_elem?-lt, ◌>>=◌,
}
use just_for_test_and_try.Checksum.Adler.{Checksum3, init, update}
use just_for_test_and_try.Checksum.Adler.Rolling.{
  CanInit, Windowed, Windowed-CanInit, init-Rolls, update-Windowed,
}
use just_for_test_and_try.FileMap.{FileMap, map_file_content}
use just_for_test_and_try.FileMap.Contents.{map_file_content-Maps}
use just_for_test_and_try.Rsync.Copy.{Reads}
use just_for_test_and_try.Rsync.Scan.{
  Scan, Judged, skipped, differs, matched, judge, roll_loop, scan_round,
}
use just_for_test_and_try.Rsync.Scan.State.{IsDigest, NoCollision, Inv, Sizes}
use just_for_test_and_try.Rsync.Scan.Judge.{Looked, judge-Looked}

module _ {room : ℕ} (c : ℕ) (md4 : List ℕ → List ℕ) (old new : List ℕ) (table : ℕ → Bool)
    (digest : IsDigest md4) (distinct : NoCollision c md4 old new) (sizes : Sizes room c new)
    (junk : ℕ) where
  -- The inner loop at `i`, behind a block's worth of bytes that `buf` leads to.
  record Rolling (left i p : ℕ) (s : Scan) (window : List ℕ) : Type 0 where
    inv : Inv c md4 old new s
    windowed : Windowed c s.summer window
    in_buffer : p + c ≤ length s.map.buffer
    rounds_left : i + left ≡ c
    behind : c ≤ s.curr
    ahead : s.curr + left ≤ length new + c
    whole : c ≤ length new

  -- The invariant does not speak of `curr`, nor of a summer beyond its size.
  with_summer :
      (s : Scan) (summer : Checksum3)
      → Inv c md4 old new s
      → CanInit c summer
      → Inv c md4 old new (record s { summer = summer })
  with_summer s summer v can = record {
    reads = v.reads;
    can = can;
    sums = v.sums;
    bound = v.bound;
    covers = v.covers;
  }

  with_curr :
      (s : Scan) (curr : ℕ) → Inv c md4 old new s → Inv c md4 old new (record s { curr = curr })
  with_curr s curr v = record {
    reads = v.reads;
    can = v.can;
    sums = v.sums;
    bound = v.bound;
    covers = v.covers;
  }

  with_map :
      (s : Scan) (m : FileMap)
      → Inv c md4 old new s
      → Reads m new
      → Inv c md4 old new (record s { map = m })
  with_map s m v r = record {
    reads = r;
    can = v.can;
    sums = v.sums;
    bound = v.bound;
    covers = v.covers;
  }

  -- What the inner loop, or a round, leaves.
  record Done (start : ℕ) (s' : Scan) : Type 0 where
    inv : Inv c md4 old new s'
    moved : start ≤ s'.curr

  abbrev Ends : Option Scan → ℕ → Type 0
  Ends r start = (s' : Scan) × (r ≡ some s') × Done start s'

  step_on :
      (left i p : ℕ) (s s' : Scan) (window : List ℕ)
      → Inv c md4 old new s'
      → s'.curr ≡ s.curr
      → Windowed c s'.summer window
      → p + c ≤ length s'.map.buffer
      → i + suc left ≡ c
      → c ≤ s.curr
      → s.curr + suc left ≤ length new + c
      → c ≤ length new
      → Rolling left (i + 1) p (record s' { curr = s'.curr + 1 }) window
  step_on left i p s s' window v e w b l h k f = record {
    inv = with_curr s' (s'.curr + 1) v;
    windowed = w;
    in_buffer = b;
    rounds_left = omega arith;
    behind = omega arith;
    ahead = omega arith;
    whole = f;
  }

  -- What is left to do after a look, by what was found.
  abbrev next : ℕ → ℕ → ℕ → Judged → Scan → Option Scan
  next left i p skipped s' =
      roll_loop c md4 new table junk left (i + 1) (some p) (record s' { curr = s'.curr + 1 })
  next left i p (differs buf) s' =
      roll_loop c md4 new table junk left (i + 1) buf (record s' { curr = s'.curr + 1 })
  next left i p matched s' = some s'

  roll_step :
      (left i p b : ℕ) (s : Scan) (summer : Checksum3) (found : Judged) (s' : Scan)
      → get_elem? s.map.buffer (p + i) ≡ some b
      → update junk s.summer b ≡ some summer
      → judge c md4 new table (record s { summer = summer }) (s.curr + 1 - c) ≡ some (found, s')
      → roll_loop c md4 new table junk (suc left) i (some p) s ≡ next left i p found s'
  unfolding roll_loop
  roll_step left i p b s summer skipped s' e1 e2 e3 = rw (e1, e2, e3)
  roll_step left i p b s summer (differs buf) s' e1 e2 e3 = rw (e1, e2, e3)
  roll_step left i p b s summer matched s' e1 e2 e3 = rw (e1, e2, e3)

  later : {s : ℕ} {r : Option Scan} (t : ℕ) → s ≤ t → Ends r t → Ends r s
  later t le (s', e, d) = (s', e, record { inv = d.inv; moved = omega (arith, d.moved) })

  after_look :
      (left i p : ℕ) (s s1 s' : Scan) (window : List ℕ) (found : Judged)
      → Rolling (suc left) i p s window
      → s1.curr ≡ s.curr
      → s1.map ≡ s.map
      → Windowed c s1.summer window
      → Looked c md4 old new table digest distinct sizes s1 found s'
      → ((p' : ℕ) (t : Scan)
          → Rolling left (i + 1) p' t window
          → Ends (roll_loop c md4 new table junk left (i + 1) (some p') t) t.curr)
      → Ends (next left i p found s') s.curr
  after_look left i p s s1 s' window skipped r ec em w l again =
      let w' : Windowed c s'.summer window = subst (λ z. Windowed c z window) (sym l.summer) w in
      let b : p + c ≤ length s'.map.buffer =
        subst (λ (z : FileMap). p + c ≤ length z.buffer) (sym (l.pointer ∙ em)) r.in_buffer in
      later (s'.curr + 1) (omega (arith, l.curr)) (
        again p (record s' { curr = s'.curr + 1 })
          (step_on left i p s s' window l.inv (l.curr ∙ ec) w' b r.rounds_left r.behind r.ahead
            r.whole))
  after_look left i p s s1 s' window (differs buf) r ec em w l again =
      let (p', e, b) = l.pointer in
      let w' : Windowed c s'.summer window = subst (λ z. Windowed c z window) (sym l.summer) w in
      rw e (
        later (s'.curr + 1) (omega (arith, l.curr)) (
          again p' (record s' { curr = s'.curr + 1 })
            (step_on left i p' s s' window l.inv (l.curr ∙ ec) w' b r.rounds_left r.behind r.ahead
              r.whole)))
  after_look left i p s s1 s' window matched r ec em w l again =
      (s', refl, record { inv = l.inv; moved = omega (arith, l.curr) })

  roll_loop-Ends :
      (left i p : ℕ) (s : Scan) (window : List ℕ)
      → Rolling left i p s window
      → Ends (roll_loop c md4 new table junk left i (some p) s) s.curr
  unfolding roll_loop
  roll_loop-Ends zero i p s window r = (s, refl, record { inv = r.inv; moved = omega arith })
  roll_loop-Ends (suc left) i p s [] r = absurd (omega (arith, r.windowed.window, sizes.chunk))
  roll_loop-Ends (suc left) i p s (x ∷ bytes) r =
      let (b, e1) = get_elem?-lt s.map.buffer (p + i) (omega (arith, r.in_buffer, r.rounds_left)) in
      let (summer, e2, w, _) = update-Windowed junk c b x s.summer bytes r.windowed in
      let s1 : Scan = record s { summer = summer } in
      let v1 = with_summer s summer r.inv (Windowed-CanInit w) in
      let (found, s', e3, l) =
        judge-Looked c md4 old new table digest distinct sizes s1 (s.curr + 1 - c) v1
          (omega (arith, r.ahead)) r.whole in
      let moved : Rolling (suc left) i p s1 (bytes ++ (b ∷ [])) = record {
        inv = v1;
        windowed = w;
        in_buffer = r.in_buffer;
        rounds_left = r.rounds_left;
        behind = r.behind;
        ahead = r.ahead;
        whole = r.whole;
      } in
      rw (roll_step left i p b s summer found s' e1 e2 e3) (
        after_look left i p s1 s1 s' (bytes ++ (b ∷ [])) found moved refl refl w l
          (λ p' t y. roll_loop-Ends left (i + 1) p' t (bytes ++ (b ∷ [])) y))

  -- The inner loop as a round starts it.
  roll_from :
      (s : Scan) (window : List ℕ)
      → Inv c md4 old new s
      → Windowed c s.summer window
      → c ≤ s.curr
      → s.curr ≤ length new
      → Ends
          (map_file_content s.map new s.curr (min (length new - s.curr) c) >>= λ r.
            roll_loop c md4 new table junk c 0 r.0 (record s { map = r.1 }))
          s.curr
  roll_from s window v w behind inside =
      let n = min (length new - s.curr) c in
      let q = v.reads in
      let (p, m, e, t) =
        map_file_content-Maps s.map new s.curr n q.valid (omega (arith, q.valid.size))
          (omega (arith, q.whole)) in
      let r' : Reads m new = record { valid = t.valid; whole = t.same_room ∙ q.whole } in
      let (s', e', d) =
        roll_loop-Ends c 0 p (record s { map = m }) window
          (record {
            inv = with_map s m v r';
            windowed = w;
            in_buffer = ground (arith, t.in_buffer, t.from_start, t.valid.room, r'.whole);
            rounds_left = omega arith;
            behind = behind;
            ahead = omega arith;
            whole = omega arith;
          }) in
      (s', rw e e', d)

  -- What a round does after its first look.
  abbrev round_next : Judged → Scan → Option Scan
  round_next skipped s1 =
      map_file_content s1.map new s1.curr (min (length new - s1.curr) c) >>= λ r.
      roll_loop c md4 new table junk c 0 r.0 (record s1 { map = r.1 })
  round_next (differs buf) s1 =
      map_file_content s1.map new s1.curr (min (length new - s1.curr) c) >>= λ r.
      roll_loop c md4 new table junk c 0 r.0 (record s1 { map = r.1 })
  round_next matched s1 = some s1

  round_step :
      (s : Scan) (p : ℕ) (m : FileMap) (summer : Checksum3) (found : Judged) (s1 : Scan)
      → map_file_content s.map new s.curr c ≡ some (some p, m)
      → init junk s.summer (drop p m.buffer) c ≡ some summer
      → judge c md4 new table (record s { map = m; summer = summer; curr = s.curr + c }) s.curr
        ≡ some (found, s1)
      → scan_round c md4 new table junk s ≡ round_next found s1
  unfolding scan_round
  round_step s p m summer skipped s1 e1 e2 e3 = rw (e1, e2, e3)
  round_step s p m summer (differs buf) s1 e1 e2 e3 = rw (e1, e2, e3)
  round_step s p m summer matched s1 e1 e2 e3 = rw (e1, e2, e3)

  round_end :
      (found : Judged) (s1 : Scan) (window : List ℕ)
      → Inv c md4 old new s1
      → Windowed c s1.summer window
      → c ≤ s1.curr
      → s1.curr ≤ length new
      → Ends (round_next found s1) s1.curr
  round_end skipped s1 window v w b h = roll_from s1 window v w b h
  round_end (differs buf) s1 window v w b h = roll_from s1 window v w b h
  round_end matched s1 window v w b h = (s1, refl, record { inv = v; moved = omega arith })

  pub scan_round-Inv :
      (s : Scan)
      → Inv c md4 old new s
      → s.curr + c ≤ length new
      → (s' : Scan) × (scan_round c md4 new table junk s ≡ some s')
        × Inv c md4 old new s'
        × (s.curr + c ≤ s'.curr)
  scan_round-Inv s v fits =
      let q = v.reads in
      let (p, m, e1, t) =
        map_file_content-Maps s.map new s.curr c q.valid (omega (arith, q.valid.size))
          (omega (arith, q.whole)) in
      let r' : Reads m new = record { valid = t.valid; whole = t.same_room ∙ q.whole } in
      let (summer, e2, rolls) =
        init-Rolls junk c s.summer (drop p m.buffer) v.can sizes.chunk
          (omega (arith, length-drop p m.buffer, t.in_buffer)) in
      let s0 : Scan = record s { map = m; summer = summer; curr = s.curr + c } in
      let v0 : Inv c md4 old new s0 = record {
        reads = r';
        can = Windowed-CanInit rolls.windowed;
        sums = v.sums;
        bound = v.bound;
        covers = v.covers;
      } in
      let (found, s1, e3, l) =
        judge-Looked c md4 old new table digest distinct sizes s0 s.curr v0 (omega arith)
          (omega arith) in
      let w1 : Windowed c s1.summer (slice 0 c (drop p m.buffer)) =
        subst (λ z. Windowed c z (slice 0 c (drop p m.buffer))) (sym l.summer) rolls.windowed in
      let (s', e4, d) =
        round_end found s1 (slice 0 c (drop p m.buffer)) l.inv w1 (omega (arith, l.curr))
          (omega (arith, l.curr)) in
      (s', rw (round_step s p m summer found s1 e1 e2 e3) e4, d.inv, omega (arith, d.moved, l.curr))
