-- ===== src/Counter/Storage.antt =====
-- examples/counter/common/src/config.rs: the directory of the engine's journal. The file system is a state of
-- any type with the operations that the code calls; a path is made of texts, and the process id is given.
use commonware_restaking.Prelude.{
  ℕ, ◌==◌, if◌then◌else◌, length, Bool, true, false, Option, none, some, List,
}

-- `create_dir_all`, `write` and `remove_file`, with the file system after them and whether they succeeded.
-- The code ignores a failure of `remove_file`.
pub record FileSystem (F P : Type 0) : Type 0 where
  pub create_dir_all : F → P → Bool × F
  pub write : F → P → Bool × F
  pub remove_file : F → P → F
  pub probe_of : P → ℕ → P
  pub trim : List ℕ → List ℕ
  pub path_from : List ℕ → P
  pub default_storage_directory : P
  pub temp_fallback : P

module _ {F P : Type 0} (fs : FileSystem F P) where
  unfoldable pub probe : ℕ → P → F → Bool × F
  probe process_id path f =
      let (written, g) = fs.write f (fs.probe_of path process_id) in
      if written then (true, fs.remove_file g (fs.probe_of path process_id)) else (false, g)

  unfoldable pub directory_is_writable : ℕ → P → F → Bool × F
  unfolding probe
  directory_is_writable process_id path f =
      let (created, g) = fs.create_dir_all f path in
      if created then probe process_id path g else (false, g)

  unfoldable pub default_or_fallback : ℕ → F → P × F
  unfolding directory_is_writable
  default_or_fallback process_id f =
      let (writable, g) = directory_is_writable process_id fs.default_storage_directory f in
      (if writable then fs.default_storage_directory else fs.temp_fallback, g)

  unfoldable pub storage_directory : Option (List ℕ) → ℕ → F → P × F
  unfolding default_or_fallback
  storage_directory none process_id f = default_or_fallback process_id f
  storage_directory (some dir) process_id f =
      if length (fs.trim dir) == 0
      then default_or_fallback process_id f
      else (fs.path_from (fs.trim dir), f)
