-- ===== src/Append/Destination.antt =====
-- Which table the tools append to, and the sink that they append through.
use crypto_lakehouse.Prelude.{
  &&_iff, List, Option, String, [], all, ap, arith, false, nat_beq, nat_beq_iff, none, refl, some,
  sym, true, ℕ, ◌++◌, ◌∙◌, ◌∷◌, ◌≡◌,
}
use Prim.Native.Char.{code}
use crypto_lakehouse.Result.{Result, ok, err, or_fail}
use crypto_lakehouse.Action.{resume, under}
use crypto_lakehouse.Action.Ends.{Ends, Ends-step}
use crypto_lakehouse.Config.Text.{Float}
use crypto_lakehouse.Config.Settings.{IcebergConfig, iceberg_from_env}
use crypto_lakehouse.Query.{dot, is_part, is_name_char, checked_qualified_name}
use crypto_lakehouse.Query.Names.{Qualified, checked_iff, is_part_iff}
use crypto_lakehouse.Sink.Dedup.{codes}
use crypto_lakehouse.Sink.Lake.{Laws}
use crypto_lakehouse.Sink.State.{Sink}
use crypto_lakehouse.Sink.Connect.{Connector, ident_of, connect}
use crypto_lakehouse.Sink.Open.{TableIdent}
use crypto_lakehouse.Sink.Connect.Ready.{ConnectorLaws, Opened, Same, connect-Ready}
use crypto_lakehouse.Append.Open.{Names, split_once, open_sink}

-- A text that is cut at its first `sep`.
abbrev pub Cut : ℕ → String → List ℕ → List ℕ → Type 0
Cut sep text a b =
    (before : String) × (after : String) × (split_once sep text ≡ some (before, after))
    × (codes before ≡ a)
    × (codes after ≡ b)

same_head : {x y : ℕ} {xs ys : List ℕ} → x ∷ xs ≡ y ∷ ys → (x ≡ y) × (xs ≡ ys)
same_head h = (cc, cc)

name_char-not_dot : (c : ℕ) → is_name_char c ≡ true → nat_beq c dot ≡ false
name_char-not_dot c h = ground (arith, h)

split_once-Cut :
    (text : String) (a b : List ℕ)
    → codes text ≡ a ++ dot ∷ b
    → all is_name_char a ≡ true
    → Cut dot text a b
unfolding split_once
split_once-Cut String.[] [] b h k = cc
split_once-Cut String.[] (x ∷ a) b h k = cc
split_once-Cut (String.◌∷◌ c s) [] b h k =
    let (here, rest) = same_head h in
    (String.[], s, rw ((nat_beq_iff (code c) dot).1 here) refl, refl, rest)
split_once-Cut (String.◌∷◌ c s) (x ∷ a) b h k =
    let (here, rest) = same_head h in
    let (good, others) = (&&_iff _ _).0 k in
    let (before, after, cut, e, g) = split_once-Cut s a b rest others in
    (
      String.◌∷◌ c before,
      after,
      rw (ap (λ n. nat_beq n dot) here ∙ name_char-not_dot x good, cut) refl,
      ap (λ n. n ∷ codes before) here ∙ ap (λ r. x ∷ r) e,
      g,
    )

-- A destination that is accepted is cut into the namespace and the table that it names: joined with a dot they
-- are the destination, and neither is empty or has a dot. So
-- `open` never fails for want of a dot.
pub split_once-accepted :
    (destination : String)
    → checked_qualified_name (codes destination) ≡ ok (codes destination)
    → (namespace : String) × (table : String) × (split_once dot destination
        ≡ some (namespace, table))
      × (codes destination ≡ codes namespace ++ dot ∷ codes table)
      × (is_part (codes namespace) ≡ true)
      × (is_part (codes table) ≡ true)
split_once-accepted destination h =
    let q : Qualified (codes destination) = (checked_iff (codes destination)).0 h in
    let (before, after, cut, e, g) =
      split_once-Cut destination q.namespace q.table q.joined
        (ground (arith, (is_part_iff q.namespace).1 q.namespace_ok)) in
    (
      before,
      after,
      cut,
      q.joined ∙ ap (λ n. n ++ dot ∷ q.table) (sym e) ∙ ap (λ t. codes before ++ dot ∷ t) (sym g),
      ap is_part e ∙ (is_part_iff q.namespace).1 q.namespace_ok,
      ap is_part g ∙ (is_part_iff q.table).1 q.table_ok,
    )

-- A text names one table at most.
pub Names-same : (text : String) (i j : TableIdent) → Names text i → Names text j → i ≡ j
Names-same text i j h k =
    let same : some (i.namespace, i.name) ≡ some (j.namespace, j.name) = sym h ∙ k in
    let parts : (i.namespace, i.name) ≡ (j.namespace, j.name) = some-injective same in
    λ n. record { namespace = (parts n).0; name = (parts n).1 }
  where
    some-injective : {a b : String × String} → some a ≡ some b → a ≡ b
    some-injective e = cc

module _ (f : Float) (env : String → Option String) {W : Type 0} (X : Connector W)
    (laws : (i : TableIdent) → Laws (X.lake i)) (more : ConnectorLaws X laws) where
  -- The sink is of the table that the text names.
  abbrev pub Usable : String → W → ((i : TableIdent) × Sink (X.lake i)) → W → Type 0
  Usable text w (i, sink) w' =
      Names text i × ((laws i).registered sink.ctx "incoming" ≡ none) × Same X laws more w w'

  named :
      (text : String) (parts : String × String) (m : String)
      → or_fail (split_once dot text) m ≡ ok parts
      → split_once dot text ≡ some parts
  named text parts m h = ground (arith, h)

  pub open_sink-Usable :
      (destination : String) (w : W)
      → Ends (Usable destination w) (Same X laws more w) (open_sink f env X destination w)
  unfolding open_sink
  open_sink-Usable destination w =
      Ends-step (Usable destination w) (Same X laws more w)
        (checked_qualified_name (codes destination)) w _ (λ _ _. refl)
        (λ _ _.
          Ends-step (Usable destination w) (Same X laws more w)
            (or_fail (split_once dot destination) _) w _ (λ _ _. refl)
            (λ parts cut.
              Ends-step (Usable destination w) (Same X laws more w)
                (under _ (iceberg_from_env f env)) w _ (λ _ _. refl)
                (λ read _.
                  let cfg = record read { namespace = parts.0; table = parts.1 } in
                  opened cfg (named destination parts _ cut) (connect X cfg w)
                    (connect-Ready X laws more cfg w))))
    where
      opened :
          (cfg : IcebergConfig)
          → Names destination (ident_of cfg)
          → (r : Result (Sink (X.lake (ident_of cfg))) × W)
          → Ends (Opened X laws more cfg w) (Same X laws more w) r
          → Ends (Usable destination w) (Same X laws more w) (
              resume
                (λ sink w'. (ok (ident_of cfg, sink), w'))
                (under "failed to open the destination table" r.0, r.1))
      opened cfg names (ok sink, w') h = (names, h.0, h.1)
      opened cfg names (err e, w') h = h
