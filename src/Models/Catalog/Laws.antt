-- ===== src/Models/Catalog/Laws.antt =====
-- What becomes of the entries of a catalogue in models/registry.py.
use decode.Prelude.{
  ℕ, ◌+◌, ◌≡◌, ◌≤◌, refl, String, str_append, true, Option, none, some, List, [], ◌∷◌, ◌++◌, length,
  length-append, All, All-append, Bool-cases, inl, inr, arith, bind-eq-some, of_some, is_nonempty,
  if◌then◌else◌,
}
use decode.Prelude.Text.{after_char, text_lt, cons-append, nil-append}
use decode.Prelude.Dict.{Dict, values, contains}
use decode.Models.Registry.{ModelSpec, model_name}
use decode.Prelude.Sort.{All-sort_by, length-sort_by}
use decode.Models.Catalog.{
  OpenRouterCatalogModel, OpenRouterCatalogResult, Prices, per_million, spec_of, catalog_model_spec,
  keep_entry, made, read_entries, catalog_of,
}

-- A hosted model for no more than internal data, under OpenRouter's name.
abbrev pub IsHosted : {W : Type 0} → ModelSpec W → Type 0
IsHosted s =
    (s.provider ≡ "openrouter")
    × (s.data_policy.locality ≡ "hosted")
    × (s.data_policy.max_classification ≡ "internal")

module _ {P W : Type 0} (prices : Prices P W) where
  made_of :
      (model : OpenRouterCatalogModel P) (curated : Option (ModelSpec W)) (spec : ModelSpec W)
      → catalog_model_spec prices model curated ≡ some spec
      → (prompt : W) × (completion : W) × (spec ≡ spec_of prices model curated prompt completion)
  unfolding catalog_model_spec
  made_of model curated spec e =
      let (prompt, _, e1) = bind-eq-some _ (per_million prices model.pricing.prompt) spec e in
      let (completion, _, e2) =
        bind-eq-some _ (per_million prices model.pricing.completion) spec e1 in
      (prompt, completion, rw (of_some e2) refl)

  after_slash : (name : String) → after_char b'/' (str_append "openrouter/" name) ≡ some name
  unfolding after_char
  after_slash name =
      rw
        (
          cons-append, cons-append, cons-append, cons-append, cons-append, cons-append, cons-append,
          cons-append, cons-append, cons-append, cons-append, nil-append,
        )
        refl

  -- The name of the model that the catalogue's entry is turned into is the entry's id, whatever
  -- slashes that has.
  pub model_name-catalog_model_spec :
      (model : OpenRouterCatalogModel P) (curated : Option (ModelSpec W)) (spec : ModelSpec W)
      → catalog_model_spec prices model curated ≡ some spec
      → model_name spec ≡ model.id
  unfolding model_name
  model_name-catalog_model_spec model curated spec e =
      let (prompt, completion, same) = made_of model curated spec e in
      rw (same, model_name, after_slash model.id) refl

  IsHosted-catalog_model_spec :
      (model : OpenRouterCatalogModel P) (curated : Option (ModelSpec W)) (spec : ModelSpec W)
      → catalog_model_spec prices model curated ≡ some spec
      → IsHosted spec
  IsHosted-catalog_model_spec model curated spec e =
      let (prompt, completion, same) = made_of model curated spec e in rw same (refl, refl, refl)

  IsHosted-made :
      (curated : Dict (ModelSpec W)) (raw : Option (OpenRouterCatalogModel P)) (spec : ModelSpec W)
      → made prices curated raw ≡ some spec
      → IsHosted spec
  IsHosted-made curated none spec e = cc
  IsHosted-made curated (some entry) spec e = IsHosted-catalog_model_spec entry _ spec e

  values-append : (xs ys : Dict (ModelSpec W)) → values (xs ++ ys) ≡ values xs ++ values ys
  values-append [] ys = refl
  values-append ((k, s) ∷ xs) ys = rw (values-append xs ys) refl

  length-values : (xs : Dict (ModelSpec W)) → length (values xs) ≡ length xs
  length-values [] = refl
  length-values ((k, s) ∷ xs) = omega (arith, length-values xs)

  nonempty_length : (xs : Dict (ModelSpec W)) → is_nonempty xs ≡ true → 1 ≤ length xs
  nonempty_length [] h = cc
  nonempty_length (x ∷ xs) h = omega arith

  -- An entry is kept or skipped, and what is kept is hosted.
  keep_entry-cases :
      (models : Dict (ModelSpec W)) (made_spec : Option (ModelSpec W))
      → ((spec : ModelSpec W) → made_spec ≡ some spec → IsHosted spec)
      → All IsHosted (values models)
      → let (kept, ok) = keep_entry models made_spec in
        All IsHosted (values kept) × (length kept + (if ok then 0 else 1) ≡ length models + 1)
  keep_entry-cases models none f h = (h, omega arith)
  keep_entry-cases models (some spec) f h = elim (Bool-cases (contains spec.id models)) [
    | inl old ↦ rw old (h, omega arith)
    | inr new ↦
        rw (new, values-append models ((spec.id, spec) ∷ []))
          (
            All-append IsHosted (values models) (spec ∷ []) h (f spec refl, tt),
            omega (arith, length-append models ((spec.id, spec) ∷ [])),
          )
  ]

  read_entries-Counts :
      (curated : Dict (ModelSpec W)) (raws : List (Option (OpenRouterCatalogModel P)))
      (models : Dict (ModelSpec W)) (skipped : ℕ)
      → All IsHosted (values models)
      → let (kept, missed) = read_entries prices curated raws models skipped in
        All IsHosted (values kept) × (length kept + missed ≡ length models + skipped + length raws)
  unfolding read_entries
  read_entries-Counts curated [] models skipped h = (h, omega arith)
  read_entries-Counts curated (raw ∷ raws) models skipped h =
      let (kept, ok) = keep_entry models (made prices curated raw) in
      let (hosted, count) =
        keep_entry-cases models (made prices curated raw) (IsHosted-made curated raw) h in
      let (all_hosted, total) =
        read_entries-Counts curated raws kept (if ok then skipped else skipped + 1) hosted in
      (all_hosted, ground (arith, total, count))

  -- The result of a catalogue counts every entry, as a model or as skipped, has at least one model, and
  -- all its models are hosted ones for no more than internal data.
  pub catalog_of-Counts :
      (curated : Dict (ModelSpec W)) (data_ : List (Option (OpenRouterCatalogModel P)))
      (result : OpenRouterCatalogResult W)
      → catalog_of prices curated data_ ≡ some result
      → All IsHosted result.models
        × (length result.models + result.skipped ≡ length data_)
        × (result.total_count ≡ length data_)
        × (1 ≤ length result.models)
  unfolding catalog_of
  catalog_of-Counts curated data_ result e =
      let (models, skipped) = read_entries prices curated data_ [] 0 in
      let (hosted, count) = read_entries-Counts curated data_ [] 0 tt in
      elim (Bool-cases (is_nonempty models)) [
        | inr empty ↦ absurd (cc (rw (catalog_of, empty) at e))
        | inl full ↦
            let by_id = λ (s t : ModelSpec W). text_lt s.id t.id in
            rw (← of_some (rw (catalog_of, full) at e)) (
              All-sort_by IsHosted by_id (values models) hosted,
              omega (arith, count, length-sort_by by_id (values models), length-values models),
              refl,
              omega (
                arith,
                nonempty_length models full,
                length-sort_by by_id (values models),
                length-values models,
              ),
            )
      ]
