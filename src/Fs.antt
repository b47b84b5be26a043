-- ===== src/Fs.antt =====
-- single_fs/depends/fs: whole files (file_utils.cpp), and many files in one (ifs.cpp).
pub mod FileUtils
pub mod Ifs
mod Tests
