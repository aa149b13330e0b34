-- ===== src/Start/Storage.antt =====
-- The directory where `register` of src/register.rs stores a property list, and the one that `main` of
-- src/main.rs has it read from.
use jit_streamer_eb.Prelude.{
  true, false, Bool-cases, Option, none, some, String, str_eq, eq_iff, ◌≡◌, ◌≢◌, ◌↔◌, ◌⊎◌, inl, inr,
  refl, sym, ap, ◌∙◌, subst, arith,
}
use jit_streamer_eb.Register.Host.{Host, variable, text_or}
use jit_streamer_eb.Register.Handler.{default_storage}
use jit_streamer_eb.Start.{read_storage}

some-injective : {a b : String} → Path (Option String) (some a) (some b) → a ≡ b
some-injective {a} e = ap (λ o. text_or o a) e

pub differ : (a b : String) → str_eq a b ≡ false → a ≢ b
differ a b e f = ground (arith, (eq_iff a b).1 f)

-- A default that is not the directory that is read, of a system that is not Linux.
elsewhere :
    (os d path : String)
    → default_storage os ≡ some d
    → default_storage os ≡ some path
    → str_eq path "/var/lib/lockdown" ≡ false
    → str_eq os "linux" ≡ false
    → (d ≡ "/var/lib/lockdown") ↔ (os ≡ "linux")
elsewhere os d path e f g h = (
  λ k. absurd (differ path "/var/lib/lockdown" g (some-injective (sym f ∙ e) ∙ k)),
  λ k. absurd (differ os "linux" h k),
)

default_storage-linux_iff :
    (os d : String) → default_storage os ≡ some d → (d ≡ "/var/lib/lockdown") ↔ (os ≡ "linux")
default_storage-linux_iff os d e = elim (Bool-cases (str_eq os "macos")) [
  | inl f ↦
      elsewhere os d "/var/db/lockdown" e (rw f refl) refl
        (subst (λ o. str_eq o "linux" ≡ false) (sym ((eq_iff os "macos").0 f)) refl)
  | inr f ↦ elim (Bool-cases (str_eq os "linux")) [
    | inl g ↦ (λ k. (eq_iff os "linux").0 g, λ k. sym (some-injective (sym (on_linux os f g) ∙ e)))
    | inr g ↦ elim (Bool-cases (str_eq os "windows")) [
      | inl h ↦ elsewhere os d "C:/ProgramData/Apple/Lockdown" e (rw (f, g, h) refl) refl g
      | inr h ↦ ground (arith, unknown os f g h, e)
    ]
  ]
]
  where
    on_linux :
        (os : String)
        → str_eq os "macos" ≡ false
        → str_eq os "linux" ≡ true
        → default_storage os ≡ some "/var/lib/lockdown"
    on_linux os f g = rw (f, g) refl

    unknown :
        (os : String)
        → str_eq os "macos" ≡ false
        → str_eq os "linux" ≡ false
        → str_eq os "windows" ≡ false
        → default_storage os ≡ none
    unknown os f g h = rw (f, g, h) refl

text_or-agrees_iff :
    (o : Option String) (d c : String) (L : Type 0)
    → (d ≡ c) ↔ L
    → (text_or o d ≡ text_or o c) ↔ ((o ≢ none) ⊎ L)
text_or-agrees_iff none d c L l = ground (arith, l)
text_or-agrees_iff (some s) d c L l = (λ e. inl (λ h. ground arith), λ h. refl)

-- The two directories agree if the variable is set, or on Linux.
pub storage-agrees_iff :
    {W : Type 0} (host : Host W) (d : String)
    → default_storage (host.os) ≡ some d
    → (variable host "PLIST_STORAGE" d ≡ read_storage host)
      ↔ ((host.env "PLIST_STORAGE" ≢ none) ⊎ (host.os ≡ "linux"))
storage-agrees_iff host d e =
    text_or-agrees_iff (host.env "PLIST_STORAGE") d "/var/lib/lockdown" (host.os ≡ "linux")
      (default_storage-linux_iff (host.os) d e)
