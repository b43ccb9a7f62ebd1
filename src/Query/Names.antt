-- ===== src/Query/Names.antt =====
-- Which table references are accepted, and so spliced into SQL text.
use crypto_lakehouse.Prelude.{
  &&_iff, All, Bool, Bool-cases, List, String, [], all, ap, arith, false, inl, inr, nat_beq,
  nat_beq_iff, refl, sym, true, ℕ, ◌&&◌, ◌++◌, ◌↔◌, ◌∙◌, ◌∷◌, ◌≡◌, ◌≤◌, ◌⊎◌,
}
use crypto_lakehouse.Result.{ok, ensure, ◌>>◌}
use crypto_lakehouse.Sink.Dedup.{prepend, split_by}
use crypto_lakehouse.Query.{dot, is_name_char, is_part, dots, is_qualified, checked_qualified_name}

-- An ASCII digit, capital or small letter, `_` or `-`.
abbrev pub NameChar : ℕ → Type 0
NameChar c =
    ((48 ≤ c) × (c ≤ 57))
    ⊎ (((65 ≤ c) × (c ≤ 90)) ⊎ (((97 ≤ c) × (c ≤ 122)) ⊎ ((c ≡ 95) ⊎ (c ≡ 45))))

-- A text that is not empty, of such characters only.
abbrev pub Part : List ℕ → Type 0
Part [] = ⊥
Part (c ∷ cs) = NameChar c × All NameChar cs

is_name_char_iff : (c : ℕ) → (is_name_char c ≡ true) ↔ NameChar c
is_name_char_iff c = ground arith

name_chars_iff : (cs : List ℕ) → (all is_name_char cs ≡ true) ↔ All NameChar cs
name_chars_iff [] = (λ _. tt, λ _. refl)
name_chars_iff (c ∷ cs) = (
  λ h.
      let both = (&&_iff (is_name_char c) (all is_name_char cs)).0 h in
      ((is_name_char_iff c).0 both.0, (name_chars_iff cs).0 both.1),
  λ h.
      (&&_iff (is_name_char c) (all is_name_char cs)).1
        ((is_name_char_iff c).1 h.0, (name_chars_iff cs).1 h.1),
)

pub is_part_iff : (p : List ℕ) → (is_part p ≡ true) ↔ Part p
is_part_iff [] = (λ h. cc, λ h. absurd h)
is_part_iff (c ∷ cs) = name_chars_iff (c ∷ cs)

-- A namespace and a table name with a dot between them.
pub record Qualified (name : List ℕ) : Type 0 where
  pub namespace : List ℕ
  pub table : List ℕ
  pub joined : name ≡ namespace ++ dot ∷ table
  pub namespace_ok : Part namespace
  pub table_ok : Part table

split-none : (s : List ℕ) → dots s ≡ 0 → split_by dot s ≡ s ∷ []
unfolding split_by prepend
split-none [] h = refl
split-none (c ∷ cs) h = ground (arith, split-none cs, h)

-- With one dot there are two parts.
split-one :
    (s : List ℕ)
    → dots s ≡ 1
    → (a : List ℕ) × (b : List ℕ) × (s ≡ a ++ dot ∷ b) × (split_by dot s ≡ a ∷ b ∷ [])
unfolding split_by prepend
split-one [] h = absurd (omega (arith, h))
split-one (c ∷ cs) h = elim (Bool-cases (nat_beq dot c)) [
  | inl at_dot ↦
      let rest : split_by dot cs ≡ cs ∷ [] = split-none cs (ground (arith, h, at_dot)) in
      ([], cs, ap (λ d. d ∷ cs) (sym ((nat_beq_iff dot c).0 at_dot)), ground (arith, rest, at_dot))
  | inr in_part ↦
      let (a, b, e, f) = split-one cs (ground (arith, h, in_part)) in
      (c ∷ a, b, ap (λ s. c ∷ s) e, ground (arith, f, in_part))
]

dots-part : (p : List ℕ) → all is_name_char p ≡ true → dots p ≡ 0
dots-part [] h = refl
dots-part (c ∷ cs) h = ground (arith, dots-part cs, h)

split-joined :
    (a b : List ℕ)
    → dots a ≡ 0
    → dots b ≡ 0
    → (split_by dot (a ++ dot ∷ b) ≡ a ∷ b ∷ []) × (dots (a ++ dot ∷ b) ≡ 1)
unfolding split_by prepend
split-joined [] b h k = ground (arith, split-none b, h, k)
split-joined (c ∷ cs) b h k = ground (arith, split-joined cs b, h, k)

ensure-true : (b : Bool) (m : String) (name : List ℕ) → (ensure b m >> ok name) ≡ ok name → b ≡ true
ensure-true true m name h = refl
ensure-true false m name h = cc

ensured : (b : Bool) (m : String) (name : List ℕ) → b ≡ true → (ensure b m >> ok name) ≡ ok name
ensured true m name h = refl
ensured false m name h = cc

from_parts :
    (name : List ℕ) → dots name ≡ 1 → all is_part (split_by dot name) ≡ true → Qualified name
from_parts name one parts =
    let (a, b, e, f) = split-one name one in
    let both : (is_part a && (is_part b && true)) ≡ true = rw f at parts in
    record {
      namespace = a;
      table = b;
      joined = e;
      namespace_ok = (is_part_iff a).0 ((&&_iff _ _).0 both).0;
      table_ok = (is_part_iff b).0 ((&&_iff _ _).0 ((&&_iff _ _).0 both).1).0;
    }

joined-Qualified :
    (a b : List ℕ) → is_part a ≡ true → is_part b ≡ true → is_qualified (a ++ dot ∷ b) ≡ true
unfolding is_qualified
joined-Qualified a b h k =
    let (parts, one) =
      split-joined a b (dots-part a (ground (arith, h))) (dots-part b (ground (arith, k))) in
    ground (arith, parts, one, h, k)

-- A reference is accepted exactly if it is a namespace and a name with one dot between them, neither empty, both of
-- ASCII digits, letters, `_` and `-` only. So no quote, blank, semicolon, bracket, slash or asterisk reaches
-- the text of a query in it; two `-` next to each other are accepted.
pub checked_iff : (name : List ℕ) → (checked_qualified_name name ≡ ok name) ↔ Qualified name
unfolding checked_qualified_name is_qualified
checked_iff name = (
  λ h.
      let accepted = (&&_iff _ _).0 (ensure-true _ _ name h) in
      from_parts name ((nat_beq_iff _ _).0 ((&&_iff _ _).0 accepted.0).1) accepted.1,
  λ q.
      let accepted : is_qualified name ≡ true =
        ap is_qualified q.joined
        ∙ joined-Qualified q.namespace q.table ((is_part_iff q.namespace).1 q.namespace_ok)
            ((is_part_iff q.table).1 q.table_ok) in
      ensured _ _ name accepted,
)
