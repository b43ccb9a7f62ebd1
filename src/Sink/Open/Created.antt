-- ===== src/Sink/Open/Created.antt =====
-- A table that is there is never created again, and one that is missing gets the batcher's schema.
use crypto_lakehouse.Schema.{
  NestedField, PartitionField, PrimitiveType, Transform, long, string, double, boolean, timestamptz,
  identity, day,
}
use crypto_lakehouse.Prelude.{Option, String, [], false, map, none, some, true, ℕ, ◌∷◌, ◌≡◌, ◌⊎◌}
use crypto_lakehouse.Result.{Result, ok, Error, is_ok}
use crypto_lakehouse.Action.{Action}
use crypto_lakehouse.Action.Ends.{Ends}
use crypto_lakehouse.Sink.Open.{
  TableIdent, ErrorKind, TableCreation, loaded, failed, Catalog, is_missing,
}

-- The documented behaviour of a catalog: it keeps tables, of which only a creation that succeeds adds one.
pub record CatalogLaws (C : Catalog) : Type 0 where
  pub tables : C.State → (i : TableIdent) → Option (C.Table i)
  pub created_with : {i : TableIdent} → C.Table i → TableCreation
  pub load_reads : (i : TableIdent) (s : C.State) → tables (C.load_table i s).1 i ≡ tables s i
  pub load_found :
      (i : TableIdent) (s : C.State) (t : C.Table i)
      → (C.load_table i s).0 ≡ loaded t
      → tables s i ≡ some t
  pub load_missing :
      (i : TableIdent) (s : C.State) (k : ErrorKind) (e : Error)
      → (C.load_table i s).0 ≡ failed k e
      → is_missing k ≡ true
      → tables s i ≡ none
  pub exists_reads :
      (n : String) (i : TableIdent) (s : C.State) → tables (C.namespace_exists n s).1 i ≡ tables s i
  pub namespace_reads :
      (n : String) (i : TableIdent) (s : C.State) → tables (C.create_namespace n s).1 i ≡ tables s i
  pub create_ok :
      (n : String) (c : TableCreation) (s : C.State)
      (t : C.Table (record { namespace = n; name = c.name }))
      → (C.create_table n c s).0 ≡ ok t
      → (tables (C.create_table n c s).1 (record { namespace = n; name = c.name }) ≡ some t)
        × (created_with t ≡ c)
  pub create_err :
      (i : TableIdent) (c : TableCreation) (s : C.State)
      → is_ok (C.create_table i.namespace c s).0 ≡ false
      → tables (C.create_table i.namespace c s).1 i ≡ tables s i

module _ (C : Catalog) (laws : CatalogLaws C) where
  open laws use {tables, created_with}

  -- The creation of a trades table, as the documents have it: eleven columns, partitions by exchange and by
  -- the day of the trade, and one property.
  pub record Asked (ident : TableIdent) (codec : String) (c : TableCreation) : Type 0 where
    pub name : c.name ≡ ident.name
    pub columns :
        map {B = ℕ × String × PrimitiveType}
          (λ (f : NestedField). (f.id, f.name, f.field_type))
          c.schema.fields
        ≡ (1, "event_time", long)
          ∷ (2, "symbol", string)
          ∷ (3, "exchange", string)
          ∷ (4, "trade_id", long)
          ∷ (5, "price", double)
          ∷ (6, "quantity", double)
          ∷ (7, "trade_time", long)
          ∷ (8, "is_buyer_maker", boolean)
          ∷ (9, "is_best_price_match", boolean)
          ∷ (10, "trade_ts", timestamptz)
          ∷ (11, "event_ts", timestamptz)
          ∷ []
    -- exchange, symbol and trade id
    pub identifier : c.schema.identifier_field_ids ≡ 3 ∷ 2 ∷ 4 ∷ []
    pub partitions :
        map {B = ℕ × Transform}
          (λ (f : PartitionField). (f.source_id, f.transform))
          c.partition_spec
        ≡ (3, identity) ∷ (10, day) ∷ []
    pub properties : c.properties ≡ ("write.parquet.compression-codec", codec) ∷ []

  -- The table is in the catalog: the one that was there, or one that is new.
  abbrev pub Ready : (ident : TableIdent) → String → C.State → C.Table ident → C.State → Type 0
  Ready ident codec before t s =
      (tables s ident ≡ some t)
      × ((tables before ident ≡ some t)
          ⊎ ((tables before ident ≡ none) × Asked ident codec (created_with t)))

  abbrev pub Kept : TableIdent → C.State → C.State → Type 0
  Kept ident before s = tables s ident ≡ tables before ident
