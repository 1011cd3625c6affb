-- ===== src/JsonRpc/Names.antt =====
-- The method of a request, two names with a dot between them (jsonrpcserver.cpp: processDataPacket).
use Prim.Native.Char.{Char, char, code}
use text.Mathlib.TextEquality.{Char-path}
use nymea_remoteproxy.Base.{
  ◌≡◌, ◌≢◌, ◌∙◌, refl, ap, sym, subst, true, false, List, [], ◌∷◌, String, arith, inl, inr, ◌↔◌,
  Bool-cases, ◌==◌,
}
use nymea_remoteproxy.JsonRpc.Requests.{split_dots, onto_first}

abbrev pub dot : Char
dot = char 46 tt

-- No character of a name is a dot.
abbrev pub HasNoDot : String → Type 0
HasNoDot String.[] = Unit
HasNoDot (String.◌∷◌ c s) = (code c ≢ code dot) × HasNoDot s

abbrev pub dotted : String → String → String
dotted String.[] b = String.◌∷◌ dot b
dotted (String.◌∷◌ c a) b = String.◌∷◌ c (dotted a b)

-- Two names with a dot between them.
abbrev pub AreDotted : String → String → String → Type 0
AreDotted text a b = (text ≡ dotted a b) × HasNoDot a × HasNoDot b

at_dot :
    (c : Char) (s : String)
    → (code c == code dot) ≡ true
    → split_dots (String.◌∷◌ c s) ≡ "" ∷ split_dots s
unfolding split_dots
at_dot c s e = rw e refl

at_other :
    (c : Char) (s : String)
    → (code c == code dot) ≡ false
    → split_dots (String.◌∷◌ c s) ≡ onto_first c (split_dots s)
unfolding split_dots
at_other c s e = rw e refl

split_plain : (s : String) → HasNoDot s → split_dots s ≡ s ∷ []
unfolding split_dots
split_plain String.[] h = refl
split_plain (String.◌∷◌ c s) h =
    at_other c s (ground (arith, h.0)) ∙ ap (onto_first c) (split_plain s h.1)

split_dotted : (a b : String) → HasNoDot a → HasNoDot b → split_dots (dotted a b) ≡ a ∷ b ∷ []
split_dotted String.[] b h k = at_dot dot b refl ∙ ap (λ l. "" ∷ l) (split_plain b k)
split_dotted (String.◌∷◌ c a) b h k =
    at_other c (dotted a b) (ground (arith, h.0)) ∙ ap (onto_first c) (split_dotted a b h.1 k)

first_of : List String → String
first_of [] = ""
first_of (s ∷ ss) = s

rest_of : List String → List String
rest_of [] = []
rest_of (s ∷ ss) = ss

onto_parts :
    (c : Char) (l rest : List String) (a : String)
    → l ≢ []
    → onto_first c l ≡ a ∷ rest
    → (s : String) × (l ≡ s ∷ rest) × (a ≡ String.◌∷◌ c s)
unfolding first_of rest_of
onto_parts c [] rest a some_parts e = absurd (some_parts refl)
onto_parts c (s ∷ ss) rest a some_parts e = (s, ap (λ l. s ∷ rest_of l) e, sym (ap first_of e))

onto_some : (c : Char) (l : List String) → onto_first c l ≢ []
onto_some c [] = λ e. absurd (ground (arith, e))
onto_some c (s ∷ ss) = λ e. absurd (ground (arith, e))

some_parts : (s : String) → split_dots s ≢ []
unfolding split_dots
some_parts String.[] = λ e. absurd (ground (arith, e))
some_parts (String.◌∷◌ c s) = λ e. elim (Bool-cases (code c == code dot)) [
  | inl here ↦ absurd (ground (arith, sym (at_dot c s here) ∙ e))
  | inr other ↦ absurd (onto_some c (split_dots s) (sym (at_other c s other) ∙ e))
]

longer :
    (c : Char) (s a : String)
    → (code c == code dot) ≡ false
    → HasNoDot s
    → a ≡ String.◌∷◌ c s
    → HasNoDot a
longer c s a other h e = subst HasNoDot (sym e) (ground (arith, other), h)

one_part : (s a : String) → split_dots s ≡ a ∷ [] → (s ≡ a) × HasNoDot a
unfolding split_dots first_of rest_of
one_part String.[] a e = (ap first_of e, subst HasNoDot (ap first_of e) tt)
one_part (String.◌∷◌ c s) a e = elim (Bool-cases (code c == code dot)) [
  | inl here ↦ absurd (some_parts s (ap rest_of (sym (at_dot c s here) ∙ e)))
  | inr other ↦
      let (a', parts, same) =
        onto_parts c (split_dots s) [] a (some_parts s) (sym (at_other c s other) ∙ e) in
      let (equal, plain) = one_part s a' parts in
      (ap (String.◌∷◌ c) equal ∙ sym same, longer c a' a other plain same)
]

two_dotted : (s a b : String) → split_dots s ≡ a ∷ b ∷ [] → AreDotted s a b
unfolding split_dots first_of rest_of
two_dotted String.[] a b e = absurd (ground (arith, ap rest_of e))
two_dotted (String.◌∷◌ c s) a b e = elim (Bool-cases (code c == code dot)) [
  | inl here ↦
      let parts = sym (at_dot c s here) ∙ e in
      let (equal, plain) = one_part s b (ap rest_of parts) in
      let first = ap first_of parts in
      let is_dot = Char-path c dot (ground (arith, here)) in
      (
        (λ i. String.◌∷◌ (is_dot i) (equal i)) ∙ ap (λ n. dotted n b) first,
        subst HasNoDot first tt,
        plain,
      )
  | inr other ↦
      let (a', parts, same) =
        onto_parts c (split_dots s) (b ∷ []) a (some_parts s) (sym (at_other c s other) ∙ e) in
      let (equal, plain, plain_b) = two_dotted s a' b parts in
      (
        ap (String.◌∷◌ c) equal ∙ ap (λ n. dotted n b) (sym same),
        longer c a' a other plain same,
        plain_b,
      )
]

-- A text has two parts at its dots exactly when it is these two with a dot between them.
pub split_dots_iff : (s a b : String) → (split_dots s ≡ a ∷ b ∷ []) ↔ AreDotted s a b
split_dots_iff s a b = (two_dotted s a b, λ h. ap split_dots h.0 ∙ split_dotted a b h.1 h.2)
