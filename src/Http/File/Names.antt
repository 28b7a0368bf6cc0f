-- ===== src/Http/File/Names.antt =====
-- http/file.cpp: GetName and GetExt.
use native.Mathlib.Numerals.{add-one}
use sinetlib.Base.{
  ℕ, ◌+◌, ◌≡◌, ◌≢◌, refl, ap, ◌∙◌, false, [], ◌∷◌, ◌++◌, none, some, length, ◌==◌, length-append,
  arith, Bytes,
}
use sinetlib.Http.File.{File, find_last, get_name, ext_of, get_ext}
use sinetlib.Net.Buffer.Search.{drop_behind}
use sinetlib.Util.{to_lower}

-- A byte is not found where it does not stand, and the last one is the one in front of such a part.
find_last-behind :
    (c : ℕ) (xs ys : Bytes) → find_last c ys ≡ none → find_last c (xs ++ c ∷ ys) ≡ some (length xs)
unfolding find_last
find_last-behind c [] ys h = rw h (ground arith)
find_last-behind c (x ∷ xs) ys h = rw (find_last-behind c xs ys h, add-one (length xs))

-- The name of a file is its path behind the last slash.
get_name-behind :
    (f : File) (dir name : Bytes)
    → f.path ≡ dir ++ b'/' ∷ name
    → find_last b'/' name ≡ none
    → get_name f ≡ name
unfolding get_name
get_name-behind f dir name e h =
    rw (e, get_name)
      (rw (find_last-behind b'/' dir name h, e)
        (drop_behind dir name b'/' (length dir + 1) (add-one (length dir))))

ext_of-behind :
    (stem ext : Bytes)
    → find_last b'.' ext ≡ none
    → ext ≢ []
    → ext_of (stem ++ b'.' ∷ ext) ≡ to_lower ext
unfolding ext_of
ext_of-behind stem [] h n = absurd (n refl)
ext_of-behind stem (x ∷ xs) h n =
    rw (find_last-behind b'.' stem (x ∷ xs) h, ext_of)
      (rw (different, drop_behind stem (x ∷ xs) b'.' (length stem + 1) (add-one (length stem)))
        refl)
  where
    different : (length stem + 1 == length (stem ++ b'.' ∷ x ∷ xs)) ≡ false
    different = ground (arith, length-append stem (b'.' ∷ x ∷ xs))

-- The extension of `dir/stem.ext` is ext in lower case, whatever the directory and the stem, dots
-- and slashes of the directory included, if stem and ext have no slash and ext has no dot and is
-- not empty.
pub get_ext-lower :
    (f : File) (dir stem ext : Bytes)
    → f.path ≡ dir ++ b'/' ∷ (stem ++ b'.' ∷ ext)
    → find_last b'/' (stem ++ b'.' ∷ ext) ≡ none
    → find_last b'.' ext ≡ none
    → ext ≢ []
    → get_ext f ≡ to_lower ext
unfolding get_ext
get_ext-lower f dir stem ext e s d n =
    ap ext_of (get_name-behind f dir (stem ++ b'.' ∷ ext) e s) ∙ ext_of-behind stem ext d n
