-- ===== src/Config/RoundTrip.antt =====
-- src/config/Config.cpp: settings that were saved are loaded again.
use monk_skud_unex.Base.{
  ℕ, List, [], ◌∷◌, ◌++◌, true, false, ◌||◌, ◌==◌, Text, All, some, ◌≡◌, refl, sym, ◌∙◌, arith, map,
  append_assoc, append-nil, is_empty, get_or,
}
use monk_skud_unex.Base.Map.{insert-fresh, IsMap, text_eq}
use monk_skud_unex.Text.{trim, cut, drop_spaces, is_space}
use monk_skud_unex.Text.Number.{all_of}
use monk_skud_unex.Text.Csv.Rows.{lacks, OneLine, lines-terminated}
use monk_skud_unex.Storage.Files.{FileSystem, Reliable}
use monk_skud_unex.Storage.Files.Replace.{replace_file-read}
use monk_skud_unex.Config.{
  Config, config_line, config_text, config_header, parse_line, entry, load_lines, load, save,
}

-- A key and a value that a line holds as they are.
pub record IsPlainEntry (e : Text × Text) : Type 0 where
  pub key_trimmed : trim e.0 ≡ e.0
  pub value_trimmed : trim e.1 ≡ e.1
  pub line_trimmed : trim (config_line e) ≡ config_line e
  pub no_equals : lacks b'=' e.0 ≡ true
  pub one_line : lacks 10 (config_line e) ≡ true
  pub not_comment : (is_empty e.0 || get_or e.0 0 0 == b'#') ≡ false

pub cut-lacks :
    (k v : Text) → lacks b'=' k ≡ true → cut (λ (c : ℕ). c == b'=') (k ++ b'=' ∷ v) ≡ some (k, v)
unfolding cut lacks all_of
cut-lacks [] v h = refl
cut-lacks (c ∷ k) v h = ground (arith, cut-lacks k v)

head-append :
    (k s : Text)
    → (is_empty k || get_or k 0 0 == b'#') ≡ false
    → (is_empty (k ++ s) || get_or (k ++ s) 0 0 == b'#') ≡ false
head-append [] s h = ground arith
head-append (c ∷ k) s h = h

parse_line-config_line :
    (k v : Text) → IsPlainEntry (k, v) → parse_line (config_line (k, v)) ≡ entry k v
unfolding parse_line config_line
parse_line-config_line k v h =
    rw
      (
        h.line_trimmed,
        head-append k (b'=' ∷ v) h.not_comment,
        cut-lacks k v h.no_equals,
        h.key_trimmed,
        h.value_trimmed,
      )
      refl

load_lines-config_line :
    (before t : List (Text × Text))
    → All IsPlainEntry t
    → IsMap before t
    → load_lines before (map config_line t) ≡ before ++ t
unfolding load_lines
load_lines-config_line before [] h m = sym (append-nil before)
load_lines-config_line before ((k, v) ∷ t) h m =
    rw (parse_line-config_line k v h.0, load_lines, insert-fresh k v before m.0)
      (load_lines-config_line (before ++ (k, v) ∷ []) t h.1 m.1
        ∙ append_assoc before ((k, v) ∷ []) t)

config_lines-OneLine :
    (t : List (Text × Text)) → All IsPlainEntry t → All OneLine (map config_line t)
config_lines-OneLine [] h = record {}
config_lines-OneLine (e ∷ t) h = (h.0.one_line, config_lines-OneLine t h.1)

load_lines-header :
    (kv : List (Text × Text)) (ls : List Text)
    → load_lines kv (config_header ∷ ls) ≡ load_lines kv ls
unfolding load_lines parse_line trim drop_spaces is_space cut
load_lines-header kv ls = refl

-- Settings that were saved to a reliable file system, with distinct keys, and keys and values that have no
-- space at their ends, no line break, no `=` in a key and no key that is empty or starts a comment, are
-- loaded as they were.
pub load-save :
    {W : Type 0} (fs : FileSystem W) (laws : Reliable fs) (c : Config) (w : W)
    → All IsPlainEntry c.kv
    → IsMap [] c.kv
    → (save fs c w).0 ≡ true
    → load fs c (save fs c w).1 ≡ (true, c)
unfolding load save config_text lacks all_of
load-save fs laws c w h m done =
    rw
      (
        replace_file-read fs laws c.path (config_text c) w done,
        load,
        config_text,
        lines-terminated (config_header ∷ map config_line c.kv) (refl, config_lines-OneLine c.kv h),
        load_lines-header [] (map config_line c.kv),
        load_lines-config_line [] c.kv h m,
      )
      refl
