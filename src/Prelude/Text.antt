-- ===== src/Prelude/Text.antt =====
-- Texts: as lists of code points, and Python's `in`, `endswith`, `split` at one character and
-- slices of a text. Letters are those of ASCII.
use Prim.Native.Char.{Char, code}
use Prim.Native.String.{◌++◌ as str_append}
use solar_monitor.Prelude.{
  ℕ, String, List, [], ◌∷◌, ◌++◌, ◌≡◌, ◌≢◌, refl, sym, ap, ◌∙◌, Bool, true, false, ◌&&◌, ◌||◌, ◌==◌,
  if◌then◌else◌, str_eq, str_eq_iff, Bool-cases, inl, inr, arith, ==_iff,
}
use text.Mathlib.TextLemmas.{nil-append, cons-append}

-- s + t
infixr 65 ◌+s◌
abbrev pub ◌+s◌ : String → String → String
s +s t = str_append s t

abbrev pub codes : String → List ℕ
codes String.[] = []
codes (String.◌∷◌ c s) = code c ∷ codes s

is_prefix : List ℕ → List ℕ → Bool
is_prefix [] cs = true
is_prefix (p ∷ ps) [] = false
is_prefix (p ∷ ps) (c ∷ cs) = p == c && is_prefix ps cs

unfoldable pub is_infix : List ℕ → List ℕ → Bool
unfolding is_prefix
is_infix ps [] = is_prefix ps []
is_infix ps (c ∷ cs) = is_prefix ps (c ∷ cs) || is_infix ps cs

-- part in text
unfoldable pub contains : String → String → Bool
unfolding is_infix
contains text part = is_infix (codes part) (codes text)

-- text.endswith(part)
unfoldable pub ends_with : String → String → Bool
ends_with String.[] part = str_eq "" part
ends_with (String.◌∷◌ c s) part = str_eq (String.◌∷◌ c s) part || ends_with s part

-- text[:-1]
unfoldable pub but_last : String → String
but_last String.[] = ""
but_last (String.◌∷◌ c String.[]) = ""
but_last (String.◌∷◌ c (String.◌∷◌ d s)) = String.◌∷◌ c (but_last (String.◌∷◌ d s))

-- a character in front of the first part
abbrev put_front : Char → List String → List String
put_front c [] = String.◌∷◌ c "" ∷ []
put_front c (part ∷ parts) = String.◌∷◌ c part ∷ parts

-- text.split(sep), for a separator of one character
unfoldable pub split : ℕ → String → List String
split sep String.[] = "" ∷ []
split sep (String.◌∷◌ c s) =
    let parts = split sep s in if code c == sep then "" ∷ parts else put_front c parts

-- The text has no such character.
abbrev pub Lacks : ℕ → String → Type 0
Lacks sep String.[] = Unit
Lacks sep (String.◌∷◌ c s) = (code c ≢ sep) × Lacks sep s

put_front-append :
    (c : Char) (ps qs : List String) → ps ≢ [] → put_front c (ps ++ qs) ≡ put_front c ps ++ qs
put_front-append c [] qs h = absurd (h refl)
put_front-append c (p ∷ ps) qs h = refl

put_front-ne-nil : (c : Char) (ps : List String) → put_front c ps ≢ []
put_front-ne-nil c [] h = cc
put_front-ne-nil c (p ∷ ps) h = cc

pub split-ne-nil : (sep : ℕ) (s : String) → split sep s ≢ []
unfolding split
split-ne-nil sep String.[] = λ h. cc
split-ne-nil sep (String.◌∷◌ c s) = elim (Bool-cases (code c == sep)) [
  | inl p ↦ rw p (λ h. cc)
  | inr p ↦ rw p (put_front-ne-nil c (split sep s))
]

-- A separator in the text cuts it in two.
pub split-append :
    (sep : Char) (s t : String)
    → split (code sep) (s +s String.◌∷◌ sep t) ≡ split (code sep) s ++ split (code sep) t
unfolding split
split-append sep String.[] t =
    rw (nil-append (String.◌∷◌ sep t)) (rw ((==_iff (code sep) (code sep)).1 refl) refl)
split-append sep (String.◌∷◌ c s) t =
    rw (cons-append c s (String.◌∷◌ sep t)) (elim (Bool-cases (code c == code sep)) [
      | inl p ↦ rw p (ap (λ ps. "" ∷ ps) (split-append sep s t))
      | inr p ↦ rw p (
          ap (put_front c) (split-append sep s t)
          ∙ put_front-append c (split (code sep) s) (split (code sep) t)
              (split-ne-nil (code sep) s))
    ])

pub split-Lacks : (sep : ℕ) (s : String) → Lacks sep s → split sep s ≡ s ∷ []
unfolding split
split-Lacks sep String.[] h = refl
split-Lacks sep (String.◌∷◌ c s) (ne, h) = ground (arith, split-Lacks sep s h)

pub ends_with-suffix :
    (s part : String) → ends_with s part ≡ true → (front : String) × (s ≡ front +s part)
unfolding ends_with
ends_with-suffix String.[] part h = ("", (str_eq_iff "" part).0 h ∙ sym (nil-append part))
ends_with-suffix (String.◌∷◌ c s) part h = elim (Bool-cases (str_eq (String.◌∷◌ c s) part)) [
  | inl p ↦ ("", (str_eq_iff (String.◌∷◌ c s) part).0 p ∙ sym (nil-append part))
  | inr p ↦
      let (front, e) = ends_with-suffix s part (sym (rw p refl) ∙ h) in
      (String.◌∷◌ c front, ap (String.◌∷◌ c) e ∙ sym (cons-append c front part))
]

pub codes-append : (s t : String) → codes (s +s t) ≡ codes s ++ codes t
codes-append String.[] t = rw (nil-append t) refl
codes-append (String.◌∷◌ c s) t = rw (cons-append c s t) (ap (λ cs. code c ∷ cs) (codes-append s t))

-- Texts with different code points are not equal.
pub str_eq-ne : (s t : String) → codes s ≢ codes t → str_eq s t ≡ false
str_eq-ne s t ne = elim (Bool-cases (str_eq s t)) [
  | inl p ↦ absurd (ne (ap codes ((str_eq_iff s t).0 p)))
  | inr p ↦ p
]
