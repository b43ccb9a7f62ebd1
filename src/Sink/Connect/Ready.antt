-- ===== src/Sink/Connect/Ready.antt =====
-- What a sink is when it is opened.
use crypto_lakehouse.Prelude.{
  List, String, false, if_cases, int_eq, nat_eq, none, refl, string_eq, ◌==◌, ◌∙◌, ◌≡◌,
}
use crypto_lakehouse.Result.{Result, ok, err, or_fail}
use crypto_lakehouse.Action.{Action, resume, under}
use crypto_lakehouse.Action.Ends.{Ends, Ends-step, Ends-resume}
use crypto_lakehouse.Config.Settings.{IcebergConfig, catalog_props}
use crypto_lakehouse.Sink.Lake.{Laws}
use crypto_lakehouse.Sink.State.{Sink}
use crypto_lakehouse.Sink.Open.{
  Load, TableCreation, TableIdent, loaded, failed, is_missing, ensure_namespace, after_load,
  ensure_table, creation_of,
}
use crypto_lakehouse.Sink.Connect.{
  Connector, ident_of, catalog, probe_view_provider, with_catalog, connect,
}

-- The documented behaviour: connecting commits no row to any table, and a provider takes no name but its own.
pub record ConnectorLaws {W : Type 0} (X : Connector W) (laws : (i : TableIdent) → Laws (X.lake i))
    : Type 0 where
  pub committed-load :
      (n : String) (props : List (String × String)) (w : W) (j : TableIdent)
      → (laws j).committed (X.load n props w).1 ≡ (laws j).committed w
  pub committed-load_table :
      (i : TableIdent) (w : W) (j : TableIdent)
      → (laws j).committed (X.load_table i w).1 ≡ (laws j).committed w
  pub committed-namespace_exists :
      (n : String) (w : W) (j : TableIdent)
      → (laws j).committed (X.namespace_exists n w).1 ≡ (laws j).committed w
  pub committed-create_namespace :
      (n : String) (w : W) (j : TableIdent)
      → (laws j).committed (X.create_namespace n w).1 ≡ (laws j).committed w
  pub committed-create_table :
      (n : String) (c : TableCreation) (w : W) (j : TableIdent)
      → (laws j).committed (X.create_table n c w).1 ≡ (laws j).committed w
  pub committed-try_new :
      (w : W) (j : TableIdent) → (laws j).committed (X.try_new w).1 ≡ (laws j).committed w
  pub committed-table :
      {n : String} (s : X.Schema n) (m : String) (w : W) (j : TableIdent)
      → (laws j).committed (X.table s m w).1 ≡ (laws j).committed w
  pub registered-new : (i : TableIdent) (n : String) → (laws i).registered (X.new i) n ≡ none
  pub register_table_ok :
      (i : TableIdent) (n m : String) (p : X.Provider i) (c c' : (X.lake i).Ctx)
      → X.register_table n p c ≡ ok c'
      → (n == m) ≡ false
      → (laws i).registered c' m ≡ (laws i).registered c m

module _ {W : Type 0} (X : Connector W) (laws : (i : TableIdent) → Laws (X.lake i))
    (more : ConnectorLaws X laws) where
  -- No table's rows have changed.
  abbrev pub Same : W → W → Type 0
  Same w w' = (j : TableIdent) → (laws j).committed w' ≡ (laws j).committed w

  -- Whatever the outcome, the same rows are committed as before.
  abbrev Reads : {A : Type 0} → W → Result A × W → Type 0
  Reads w r = Ends (λ _ w'. Same w w') (λ w'. Same w w') r

  under-Reads :
      {A : Type 0} (w : W) (c : String) (r : Result A × W) → Same w r.1 → Reads w (under c r.0, r.1)
  under-Reads w c (ok a, w') h = h
  under-Reads w c (err e, w') h = h

  resume-Reads :
      {A B : Type 0} (w : W) (r : Result A × W) (f : A → Action W B)
      → Reads w r
      → ((a : A) (w' : W) → Reads w' (f a w'))
      → Reads w (resume f r)
  resume-Reads w (ok a, w') f h k = moved (f a w') (k a w')
    where
      moved : {B : Type 0} (r : Result B × W) → Reads w' r → Reads w r
      moved (ok b, w'') m = λ j. m j ∙ h j
      moved (err e, w'') m = λ j. m j ∙ h j
  resume-Reads w (err e, w') f h k = h

  ensure_namespace-Reads : (n : String) (w : W) → Reads w (ensure_namespace (catalog X) n w)
  unfolding ensure_namespace
  ensure_namespace-Reads n w =
      resume-Reads w _ _
        (under-Reads w _ (X.namespace_exists n w) (more.committed-namespace_exists n w))
        (λ exists w'.
          if_cases (λ (m : Action W (Unit {0})). Reads w' (m w')) exists _ _ (λ _ _. refl)
            (λ _.
              under-Reads w' _ (X.create_namespace n w') (more.committed-create_namespace n w')))

  after_load-Reads :
      (i : TableIdent) (codec : String) (w : W) (r : Load (X.lake i).Table × W)
      → Same w r.1
      → Reads w (after_load (catalog X) i codec r)
  unfolding after_load
  after_load-Reads i codec w (loaded table, w') h = h
  after_load-Reads i codec w (failed kind e, w') h =
      resume-Reads w (ok tt, w') (λ u w1. after_load (catalog X) i codec (failed kind e, w1)) h
        (λ u w1.
          if_cases (λ (r : Result (X.lake i).Table × W). Reads w1 r) (is_missing kind) _ _
            (λ _. resume-Reads w1 _ _ (ensure_namespace-Reads i.namespace w1) (λ _ w2.
              under-Reads w2 _ (X.create_table i.namespace (creation_of i codec) w2)
                (more.committed-create_table i.namespace (creation_of i codec) w2)))
            (λ _ _. refl))

  probe_view_provider-Reads : (cfg : IcebergConfig) (w : W) → Reads w (probe_view_provider X cfg w)
  unfolding probe_view_provider
  probe_view_provider-Reads cfg w =
      resume-Reads w _ _ (under-Reads w _ (X.try_new w) (more.committed-try_new w)) (λ _ w1.
        resume-Reads w1 (or_fail (X.schema cfg.namespace w1) _, w1) _
          (unchanged w1 (or_fail (X.schema cfg.namespace w1) _))
          (λ schema w2.
            resume-Reads w2 (X.table schema cfg.table w2) _
              (plain w2 (X.table schema cfg.table w2) (more.committed-table schema cfg.table w2))
              (λ found w3. unchanged w3 (or_fail found _))))
    where
      unchanged : {A : Type 0} (w1 : W) (r : Result A) → Reads w1 (r, w1)
      unchanged w1 (ok a) = λ _. refl
      unchanged w1 (err e) = λ _. refl

      plain : {A : Type 0} (w1 : W) (r : Result A × W) → Same w1 r.1 → Reads w1 r
      plain w1 (ok a, w2) h = h
      plain w1 (err e, w2) h = h

  abbrev pub Opened : (cfg : IcebergConfig) → W → Sink (X.lake (ident_of cfg)) → W → Type 0
  Opened cfg w sink w' =
      ((laws (ident_of cfg)).registered sink.ctx "incoming" ≡ none)
      × Same w w'
      × (sink.commit_retries ≡ cfg.commit_retries)

  with_catalog-Ready :
      (cfg : IcebergConfig) (w w0 : W)
      → Same w w0
      → Ends (Opened cfg w) (Same w) (with_catalog X cfg w0)
  unfolding with_catalog ensure_table
  with_catalog-Ready cfg w w0 same =
      Ends-resume (Opened cfg w) (Same w) (λ _ w1. Same w w1)
        (ensure_table (catalog X) (ident_of cfg) cfg.parquet_compression w0) _
        (from w0 same _ (
          after_load-Reads (ident_of cfg) cfg.parquet_compression w0
            (X.load_table (ident_of cfg) w0) (more.committed-load_table (ident_of cfg) w0)))
        (λ table w1 h1.
          Ends-resume (Opened cfg w) (Same w) (λ _ w2. Same w w2) (probe_view_provider X cfg w1) _
            (from w1 h1 _ (probe_view_provider-Reads cfg w1))
            (λ provider w2 h2.
              Ends-step (Opened cfg w) (Same w)
                (X.register_table "icetbl" provider (X.new (ident_of cfg))) w2 _ (λ _. h2)
                (λ ctx made. (
                  more.register_table_ok (ident_of cfg) "icetbl" "incoming" provider
                        (X.new (ident_of cfg)) ctx made refl
                      ∙ more.registered-new (ident_of cfg) "incoming",
                  h2,
                  refl,
                ))))
    where
      from :
          {A : Type 0} (w1 : W)
          → Same w w1
          → (r : Result A × W) → Reads w1 r
          → Ends (λ _ w'. Same w w') (Same w) r
      from w1 h (ok a, w') k = λ j. k j ∙ h j
      from w1 h (err e, w') k = λ j. k j ∙ h j

  -- Once a sink is opened, nothing is registered in its session as `incoming`, it retries as configured, and
  -- no row has been committed to any table; nor has any where it could not be opened.
  pub connect-Ready : (cfg : IcebergConfig) (w : W) → Ends (Opened cfg w) (Same w) (connect X cfg w)
  unfolding connect
  connect-Ready cfg w =
      Ends-resume (Opened cfg w) (Same w) (λ _ w1. Same w w1) _ _
        (under-Reads w _ (X.load "lakekeeper" (catalog_props X.prop_names cfg) w)
          (more.committed-load "lakekeeper" (catalog_props X.prop_names cfg) w))
        (λ _ w1 h. with_catalog-Ready cfg w w1 h)
