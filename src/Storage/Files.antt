-- ===== src/Storage/Files.antt =====
-- What src/storage/FileStore.cpp uses of `<filesystem>` and `<fstream>`: an interface over a world `W`,
-- and what the code relies on.
pub mod Replace
use monk_skud_unex.Base.{
  ℕ, List, [], ◌∷◌, ◌++◌, Bool, true, false, Text, Option, none, some, bytes_eq, ◌≡◌, if◌then◌else◌,
  codes,
}

pub record FileSystem (W : Type 0) : Type 0 where
  pub exists : Text → W → Bool
  -- All of a file, where `ifstream` opens it.
  pub read : Text → W → Option Text
  -- `ofstream f(path, app)` and `ofstream f(path)`: whether the stream is good, and the file created.
  pub open_append : Text → W → Bool × W
  pub open_truncate : Text → W → Bool × W
  -- `f << text` up to the close of the stream. The code tests no result of it.
  pub write : Text → Text → W → W
  -- Whether there was no error.
  pub rename : Text → Text → W → Bool × W
  pub remove : Text → W → W

-- A stream that did not open gives no line.
unfoldable pub content : Option Text → Text
content none = []
content (some s) = s

abbrev pub is_some : Option Text → Bool
is_some none = false
is_some (some s) = true

abbrev pub added : Text → Option Text → Option Text
added t none = none
added t (some s) = some (s ++ t)

-- The documented behaviour, where every write reaches the disk.
pub record Reliable {W : Type 0} (fs : FileSystem W) : Type 0 where
  -- A file that is there can be read.
  pub exists_read : (p : Text) (w : W) → fs.exists p w ≡ is_some (fs.read p w)
  pub appended :
      (p : Text) (w : W)
      → (fs.open_append p w).0 ≡ true
      → fs.read p (fs.open_append p w).1 ≡ some (content (fs.read p w))
  pub append_refused :
      (p : Text) (w : W)
      → (fs.open_append p w).0 ≡ false
      → fs.read p (fs.open_append p w).1 ≡ fs.read p w
  pub truncated :
      (p : Text) (w : W)
      → (fs.open_truncate p w).0 ≡ true
      → fs.read p (fs.open_truncate p w).1 ≡ some []
  pub written : (p t : Text) (w : W) → fs.read p (fs.write p t w) ≡ added t (fs.read p w)
  pub renamed :
      (p q : Text) (w : W)
      → bytes_eq p q ≡ false
      → (fs.rename p q w).0 ≡ true
      → fs.read q (fs.rename p q w).1 ≡ fs.read p w
  -- A rename that ends in an error leaves its source alone.
  pub rename_failed :
      (p q : Text) (w : W)
      → (fs.rename p q w).0 ≡ false
      → fs.read p (fs.rename p q w).1 ≡ fs.read p w
  -- No operation touches a path that it does not name.
  pub appended_elsewhere :
      (p q : Text) (w : W) → bytes_eq p q ≡ false → fs.read q (fs.open_append p w).1 ≡ fs.read q w
  pub truncated_elsewhere :
      (p q : Text) (w : W) → bytes_eq p q ≡ false → fs.read q (fs.open_truncate p w).1 ≡ fs.read q w
  pub written_elsewhere :
      (p q t : Text) (w : W) → bytes_eq p q ≡ false → fs.read q (fs.write p t w) ≡ fs.read q w
  pub renamed_elsewhere :
      (p q r : Text) (w : W)
      → bytes_eq p r ≡ false
      → bytes_eq q r ≡ false
      → fs.read r (fs.rename p q w).1 ≡ fs.read r w
  pub removed_elsewhere :
      (p q : Text) (w : W) → bytes_eq p q ≡ false → fs.read q (fs.remove p w) ≡ fs.read q w

abbrev pub temporary : Text → Text
temporary p = p ++ codes ".tmp"

module _ {W : Type 0} (fs : FileSystem W) where
  -- `rename`, and once more behind `remove` where there was an error.
  unfoldable pub rename_over : Text → Text → W → Bool × W
  rename_over tmp p w =
      let first = fs.rename tmp p w in
      if first.0 then (true, first.1) else fs.rename tmp p (fs.remove p first.1)

  -- A table is written to a temporary file, which then takes the place of the old one.
  unfoldable pub replace_file : Text → Text → W → Bool × W
  replace_file p text w =
      let opened = fs.open_truncate (temporary p) w in
      if opened.0
      then rename_over (temporary p) p (fs.write (temporary p) text opened.1)
      else (false, opened.1)
