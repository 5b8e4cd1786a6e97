-- ===== src/Log/Name.antt =====
-- The name of a source file is what stands behind the last separator of its path.
use mathlib.Core.Path.{subst}
use mblue.Common.{
  ℕ, zero, suc, ◌≤◌, ◌<◌, ◌≡◌, refl, sym, ap, ◌∙◌, Bool, true, false, ◌||◌, List, [], ◌∷◌, ◌++◌,
  ◌==◌, if_intro, Option, none, some, take, drop, get_or, length, take_append_drop, arith,
}
use mblue.Log.Client.{file_name_loop, log_get_file_name_pointer}

abbrev pub separator : ℕ → Bool
separator c = (c == b'\\') || (c == b'/')

abbrev pub IsName : List ℕ → Type 0
IsName [] = Unit {0}
IsName (c ∷ cs) = (separator c ≡ false) × IsName cs

-- No name without a separator; else the path is a directory, a separator and the name.
abbrev pub IsNameOf : List ℕ → Option (List ℕ) → Type 0
IsNameOf path none = IsName path
IsNameOf path (some name) =
    (directory : List ℕ) × (c : ℕ) × (path ≡ directory ++ (c ∷ name))
    × (separator c ≡ true)
    × IsName name

drop-get_or :
    (path : List ℕ) (pos : ℕ)
    → pos < length path
    → drop pos path ≡ get_or path pos 0 ∷ drop (suc pos) path
drop-get_or [] pos h = absurd (omega arith)
drop-get_or (c ∷ path) zero h = refl
drop-get_or (c ∷ path) (suc pos) h = drop-get_or path pos (omega arith)

drop-length : (path : List ℕ) → drop (length path) path ≡ []
drop-length [] = refl
drop-length (c ∷ path) = drop-length path

file_name_loop-IsNameOf :
    (path : List ℕ) (pos : ℕ)
    → pos ≤ length path
    → IsName (drop pos path)
    → IsNameOf path (file_name_loop path pos)
unfolding file_name_loop
file_name_loop-IsNameOf path zero h name = name
file_name_loop-IsNameOf path (suc pos) h name =
    let c = get_or path pos 0 in
    let at_pos = drop-get_or path pos (omega (arith, h)) in
    if_intro (λ result. IsNameOf path result) (separator c)
      (λ found. (
        take pos path,
        c,
        sym (take_append_drop pos path) ∙ ap (λ (l : List ℕ). take pos path ++ l) at_pos,
        found,
        name,
      ))
      (λ other.
        file_name_loop-IsNameOf path pos (omega (arith, h))
          (subst IsName (sym at_pos) (other, name)))

-- `__log_get_file_name_pointer` returns what stands behind the last slash or backslash of the path,
-- which has none itself, and NULL exactly when the path has neither.
pub log_get_file_name_pointer-IsNameOf :
    (path : List ℕ) → IsNameOf path (log_get_file_name_pointer path)
unfolding log_get_file_name_pointer
log_get_file_name_pointer-IsNameOf path =
    file_name_loop-IsNameOf path (length path) (omega arith)
      (subst IsName (sym (drop-length path)) tt)
