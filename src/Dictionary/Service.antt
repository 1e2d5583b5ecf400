-- ===== src/Dictionary/Service.antt =====
-- packages/node/src/indexer/dictionary/stellarDictionary.service.ts, `initDictionaries`, and the
-- creation of a dictionary in v1/stellarDictionaryV1.ts. node-core's `resolveDictionary` and a
-- dictionary's `init` are parameters.
use subql_stellar.Prelude.{
  String, Option, none, some, or_default, List, [], ◌∷◌, ◌++◌, Bool, true, false, ◌===◌,
  if◌then◌else◌, filter, map, Result, ok, throw, new_error, ◌>>=◌, ◌≡◌, refl, ap, Result-cases, inl,
  inr,
}

-- `network.dictionary`: nothing, one URL or a list of them.
pub data DictionaryUrls : Type 0 where
  absent : DictionaryUrls
  one_url : String → DictionaryUrls
  many_urls : List String → DictionaryUrls

pub record DictionaryProject : Type 0 where
  pub chain_id : String
  pub dictionary : DictionaryUrls

pub record StellarDictionaryV1 : Type 0 where
  pub url : String
  pub chain_id : String

abbrev pub configured_urls : DictionaryUrls → List String
configured_urls absent = []
configured_urls (one_url u) = if u === "" then [] else u ∷ []
configured_urls (many_urls us) = us

-- `try { dictionaries.push(await …) } catch { }`
abbrev push_ok {ℓ} : {A : Type ℓ} → Result A → List A → List A
push_ok (ok a) rest = a ∷ rest
push_ok (throw e) rest = rest

module _ (dictionary_init : StellarDictionaryV1 → Result (Unit {0})) where
  abbrev new_dictionary : DictionaryProject → String → Option String → StellarDictionaryV1
  new_dictionary project url chain_id = record {
    url = url;
    chain_id = or_default chain_id project.chain_id;
  }

  -- `StellarDictionaryV1.create`
  unfoldable pub create_dictionary :
      DictionaryProject → String → Option String → Result StellarDictionaryV1
  create_dictionary project url chain_id = do
    done ← dictionary_init (new_dictionary project url chain_id)
    ok (new_dictionary project url chain_id)

  -- The loop over the endpoints: one that fails is left out.
  unfoldable pub create_all : DictionaryProject → List String → List StellarDictionaryV1
  unfolding create_dictionary
  create_all project [] = []
  create_all project (endpoint ∷ endpoints) =
      push_ok (create_dictionary project endpoint none) (create_all project endpoints)

  -- What `this.init` is given.
  unfoldable pub init_dictionaries :
      Option DictionaryProject
      → (DictionaryProject → Result (List String))
      → Result (List StellarDictionaryV1)
  unfolding create_all
  init_dictionaries none resolve_dictionary =
      throw (new_error "Project in Dictionary service not initialized ")
  init_dictionaries (some project) resolve_dictionary = do
    registry_dictionaries ← resolve_dictionary project
    ok (create_all project (configured_urls project.dictionary ++ registry_dictionaries))

  abbrev settles : Result (Unit {0}) → Bool
  settles (ok u) = true
  settles (throw e) = false

  -- The dictionary at the URL can be used for the project's chain.
  abbrev pub is_valid : DictionaryProject → String → Bool
  is_valid project url =
      settles (dictionary_init (record { url = url; chain_id = project.chain_id }))

  create_all_lem :
      (project : DictionaryProject) (endpoints : List String)
      → create_all project endpoints
        ≡ map
            (λ u. record { url = u; chain_id = project.chain_id })
            (filter (is_valid project) endpoints)
  unfolding create_all create_dictionary
  create_all_lem project [] = refl
  create_all_lem project (u ∷ us) =
      elim (Result-cases (dictionary_init (record { url = u; chain_id = project.chain_id }))) [
        | inl (done, e) ↦
            rw e (
              ap (◌∷◌ (record { url = u; chain_id = project.chain_id }))
                (create_all_lem project us))
        | inr (err, e) ↦ rw e (create_all_lem project us)
      ]

  -- The service gets a dictionary of the project's chain for each URL at which one can be used: the
  -- configured ones first, then those of the registry, in their order. A URL at which none can be used is
  -- left out and does no further harm.
  pub init_dictionaries-eq-ok :
      (project : DictionaryProject) (resolve_dictionary : DictionaryProject → Result (List String))
      (registry : List String)
      → resolve_dictionary project ≡ ok registry
      → init_dictionaries (some project) resolve_dictionary
        ≡ ok (
            map
              (λ u. record { url = u; chain_id = project.chain_id })
              (filter (is_valid project) (configured_urls project.dictionary ++ registry)))
  unfolding init_dictionaries
  init_dictionaries-eq-ok project resolve_dictionary registry h =
      rw h (ap ok (create_all_lem project (configured_urls project.dictionary ++ registry)))
