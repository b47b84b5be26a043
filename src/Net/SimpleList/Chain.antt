-- ===== src/Net/SimpleList/Chain.antt =====
-- Chains of nodes in a field.
use just_for_test_and_try.Base.{
  ℕ, ◌≡◌, ◌≢◌, sym, ◌∙◌, some, List, [], ◌∷◌, ◌++◌, ne→==, ==_self, lookup, insert, erase,
  lookup-insert, lookup-erase, nat_eq,
}
use just_for_test_and_try.Net.SimpleList.{Field, put}

-- From `a` along the nodes to `z`: by `next_`, and back by `pre_`.
abbrev pub NextChain : Field → ℕ → List ℕ → ℕ → Type 0
NextChain next a [] z = lookup a next ≡ some z
NextChain next a (x ∷ xs) z = (lookup a next ≡ some x) × NextChain next x xs z

abbrev pub PreChain : Field → ℕ → List ℕ → ℕ → Type 0
PreChain pre a [] z = lookup z pre ≡ some a
PreChain pre a (x ∷ xs) z = (lookup x pre ≡ some a) × PreChain pre x xs z

abbrev pub NotIn : ℕ → List ℕ → Type 0
NotIn k [] = Unit {0}
NotIn k (x ∷ xs) = (k ≢ x) × NotIn k xs

abbrev pub Distinct : List ℕ → Type 0
Distinct [] = Unit {0}
Distinct (x ∷ xs) = NotIn x xs × Distinct xs

-- The last node of a chain from `a`, and the first of one to `z`.
abbrev pub last_of : ℕ → List ℕ → ℕ
last_of a [] = a
last_of a (x ∷ xs) = last_of x xs

abbrev pub first_of : List ℕ → ℕ → ℕ
first_of [] z = z
first_of (x ∷ xs) z = x

pub insert_self : (k v : ℕ) (m : Field) → lookup k (insert k v m) ≡ some v
insert_self k v m = rw (lookup-insert k k v m, ==_self k)

pub insert-other : (k v j : ℕ) (m : Field) → k ≢ j → lookup j (insert k v m) ≡ lookup j m
insert-other k v j m h = rw (lookup-insert k j v m, ne→== k j h)

pub erase-other : (k j : ℕ) (m : Field) → k ≢ j → lookup j (erase k m) ≡ lookup j m
erase-other k j m h = rw (lookup-erase k j m, ne→== k j h)

pub put-some :
    (node v w : ℕ) (m : Field) → lookup node m ≡ some w → put node v m ≡ some (insert node v m)
unfolding put
put-some node v w m h = rw (h, put)

pub last_of-ne : (a x : ℕ) (xs : List ℕ) → NotIn a (x ∷ xs) → last_of x xs ≢ a
last_of-ne a x [] h = λ e. h.0 (sym e)
last_of-ne a x (y ∷ xs) h = last_of-ne a y xs h.1

pub NextChain-insert :
    (m : Field) (k v a : ℕ) (xs : List ℕ) (z : ℕ)
    → NextChain m a xs z
    → NotIn k (a ∷ xs)
    → NextChain (insert k v m) a xs z
NextChain-insert m k v a [] z c h = insert-other k v a m h.0 ∙ c
NextChain-insert m k v a (x ∷ xs) z c h =
    (insert-other k v a m h.0 ∙ c.0, NextChain-insert m k v x xs z c.1 h.1)

pub NextChain-erase :
    (m : Field) (k a : ℕ) (xs : List ℕ) (z : ℕ)
    → NextChain m a xs z
    → NotIn k (a ∷ xs)
    → NextChain (erase k m) a xs z
NextChain-erase m k a [] z c h = erase-other k a m h.0 ∙ c
NextChain-erase m k a (x ∷ xs) z c h =
    (erase-other k a m h.0 ∙ c.0, NextChain-erase m k x xs z c.1 h.1)

pub PreChain-insert :
    (m : Field) (k v a : ℕ) (xs : List ℕ) (z : ℕ)
    → PreChain m a xs z
    → NotIn k (z ∷ xs)
    → PreChain (insert k v m) a xs z
PreChain-insert m k v a [] z c h = insert-other k v z m h.0 ∙ c
PreChain-insert m k v a (x ∷ xs) z c h =
    (insert-other k v x m h.1.0 ∙ c.0, PreChain-insert m k v x xs z c.1 (h.0, h.1.1))

pub PreChain-erase :
    (m : Field) (k a : ℕ) (xs : List ℕ) (z : ℕ)
    → PreChain m a xs z
    → NotIn k (z ∷ xs)
    → PreChain (erase k m) a xs z
PreChain-erase m k a [] z c h = erase-other k z m h.0 ∙ c
PreChain-erase m k a (x ∷ xs) z c h =
    (erase-other k x m h.1.0 ∙ c.0, PreChain-erase m k x xs z c.1 (h.0, h.1.1))

-- The last node of a chain is made to point elsewhere.
pub NextChain-retarget :
    (m : Field) (v a : ℕ) (xs : List ℕ) (z : ℕ)
    → NextChain m a xs z
    → Distinct (a ∷ xs)
    → NextChain (insert (last_of a xs) v m) a xs v
NextChain-retarget m v a [] z c d = insert_self a v m
NextChain-retarget m v a (x ∷ xs) z c d = (
  insert-other (last_of x xs) v a m (last_of-ne a x xs d.0) ∙ c.0,
  NextChain-retarget m v x xs z c.1 d.1,
)

pub PreChain-last :
    (m : Field) (a : ℕ) (xs : List ℕ) (z : ℕ) → PreChain m a xs z → lookup z m ≡ some (last_of a xs)
PreChain-last m a [] z c = c
PreChain-last m a (x ∷ xs) z c = PreChain-last m x xs z c.1

pub NextChain-last :
    (m : Field) (a : ℕ) (xs : List ℕ) (z : ℕ)
    → NextChain m a xs z
    → lookup (last_of a xs) m ≡ some z
NextChain-last m a [] z c = c
NextChain-last m a (x ∷ xs) z c = NextChain-last m x xs z c.1

pub NextChain-first :
    (m : Field) (a : ℕ) (xs : List ℕ) (z : ℕ)
    → NextChain m a xs z
    → lookup a m ≡ some (first_of xs z)
NextChain-first m a [] z c = c
NextChain-first m a (x ∷ xs) z c = c.0

-- Another end for a chain back.
pub PreChain-end :
    (m : Field) (a : ℕ) (xs : List ℕ) (y z : ℕ)
    → PreChain m a xs y
    → lookup z m ≡ some (last_of a xs)
    → PreChain m a xs z
PreChain-end m a [] y z c h = h
PreChain-end m a (x ∷ xs) y z c h = (c.0, PreChain-end m x xs y z c.1 h)

-- Another start.
pub PreChain-start :
    (m : Field) (v a : ℕ) (xs : List ℕ) (z : ℕ)
    → PreChain m a xs z
    → Distinct (z ∷ xs)
    → PreChain (insert (first_of xs z) v m) v xs z
PreChain-start m v a [] z c d = insert_self z v m
PreChain-start m v a (x ∷ xs) z c d =
    (insert_self x v m, PreChain-insert m x v x xs z c.1 ((λ e. d.0.0 (sym e)), d.1.0))

pub NextChain-join :
    (m : Field) (a : ℕ) (xs : List ℕ) (y : ℕ) (ys : List ℕ) (z : ℕ)
    → NextChain m a xs y
    → NextChain m y ys z
    → NextChain m a (xs ++ y ∷ ys) z
NextChain-join m a [] y ys z c d = (c, d)
NextChain-join m a (x ∷ xs) y ys z c d = (c.0, NextChain-join m x xs y ys z c.1 d)

pub PreChain-join :
    (m : Field) (a : ℕ) (xs : List ℕ) (y : ℕ) (ys : List ℕ) (z : ℕ)
    → PreChain m a xs y
    → PreChain m y ys z
    → PreChain m a (xs ++ y ∷ ys) z
PreChain-join m a [] y ys z c d = (c, d)
PreChain-join m a (x ∷ xs) y ys z c d = (c.0, PreChain-join m x xs y ys z c.1 d)

pub NextChain-split :
    (m : Field) (a : ℕ) (xs : List ℕ) (y : ℕ) (ys : List ℕ) (z : ℕ)
    → NextChain m a (xs ++ y ∷ ys) z
    → NextChain m a xs y × NextChain m y ys z
NextChain-split m a [] y ys z c = c
NextChain-split m a (x ∷ xs) y ys z c =
    let (p, q) = NextChain-split m x xs y ys z c.1 in ((c.0, p), q)

pub PreChain-split :
    (m : Field) (a : ℕ) (xs : List ℕ) (y : ℕ) (ys : List ℕ) (z : ℕ)
    → PreChain m a (xs ++ y ∷ ys) z
    → PreChain m a xs y × PreChain m y ys z
PreChain-split m a [] y ys z c = c
PreChain-split m a (x ∷ xs) y ys z c =
    let (p, q) = PreChain-split m x xs y ys z c.1 in ((c.0, p), q)
