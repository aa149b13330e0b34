-- ===== src/FileSystem.antt =====
-- The files of a host as the start of the server (src/main.rs) and build.rs leave them: what is there,
-- and what stays as it was.
use jit_streamer_eb.Prelude.{
  ℕ, Bool, true, false, Bool-cases, Option, none, some, String, str_eq, eq_iff, List, ◌≡◌, refl,
  sym, subst, ap, ◌∙◌, if◌then◌else◌, inl, inr, arith,
}

-- The contents of the files.
abbrev pub Files : Type 0
Files = String → Option (List ℕ)

abbrev pub is_there : Option (List ℕ) → Bool
is_there none = false
is_there (some text) = true

abbrev pub with_file : String → List ℕ → Files → Files
with_file path text files q = if str_eq path q then some text else files q

-- A file that was there is as it was.
abbrev pub Kept : Option (List ℕ) → Option (List ℕ) → Type 0
Kept none after = Unit
Kept (some text) after = after ≡ some text

abbrev pub AllKept : Files → Files → Type 0
AllKept before after = (path : String) → Kept (before path) (after path)

pub Kept-refl : (o : Option (List ℕ)) → Kept o o
Kept-refl none = tt
Kept-refl (some text) = refl

pub Kept-trans : (a b c : Option (List ℕ)) → Kept a b → Kept b c → Kept a c
Kept-trans none b c h k = tt
Kept-trans (some text) b c h k = subst (λ o. Kept o c) h k

pub is_there-Kept : (a b : Option (List ℕ)) → Kept a b → is_there a ≡ true → is_there b ≡ true
is_there-Kept none b h t = ground arith
is_there-Kept (some text) b h t = rw h refl

-- A new file takes no other's place.
pub AllKept-with_file :
    (path : String) (text : List ℕ) (before after : Files)
    → before path ≡ none
    → AllKept before after
    → AllKept before (with_file path text after)
AllKept-with_file path text before after e k q = elim (Bool-cases (str_eq path q)) [
  | inl same ↦
      subst (λ o. Kept o (with_file path text after q)) (sym e ∙ ap before ((eq_iff path q).0 same))
        tt
  | inr other ↦ rw other (k q)
]

pub is_there-with_file :
    (path : String) (text : List ℕ) (files : Files)
    → is_there (with_file path text files path) ≡ true
is_there-with_file path text files = rw ((eq_iff path path).1 refl) refl

abbrev pub IsThere : Files → String → Type 0
IsThere files path = is_there (files path) ≡ true

pub IsThere-with_file :
    (path : String) (text : List ℕ) (files : Files) (q : String)
    → IsThere files q
    → IsThere (with_file path text files) q
IsThere-with_file path text files q h = elim (Bool-cases (str_eq path q)) [
  | inl e ↦ rw e refl
  | inr e ↦ rw e h
]
