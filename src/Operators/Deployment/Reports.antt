-- ===== src/Operators/Deployment/Reports.antt =====
-- eigenlayer/src/network.rs: what the reader of the deployment file reports as missing.
use mathlib.Core.Path.{subst}
use commonware_restaking.Prelude.{
  ◌≡◌, refl, ap, ◌⊎◌, Bool, true, false, Option, none, some, inl, inr, Option-cases,
}
use commonware_restaking.Prelude.Result.{Result, ok, err, ok_inj, err_inj, failed_step, ◌>>=◌}
use commonware_restaking.Operators.Deployment.{
  Field, addresses, registry_coordinator, bls_sig_check, last_update, block_number,
  avs_service_manager, avs_service_manager_wrapper, DeploymentError, unreadable, not_json, missing,
  not_a_number, not_an_address, panic_on_key, Json, ok_or, text_at, optional_text, service_manager,
  read_parsed, read_fields, read_avs_deployment_config,
}

ok_or_failed :
    {A : Type 0} (o : Option A) (x e : DeploymentError) → ok_or o x ≡ err e → (o ≡ none) × (x ≡ e)
unfolding ok_or
ok_or_failed none x e h = (refl, err_inj h)
ok_or_failed (some a) x e h = cc

ok_or_found :
    {A : Type 0} (o : Option A) (x : DeploymentError) (a : A) → ok_or o x ≡ ok a → o ≡ some a
unfolding ok_or
ok_or_found none x a h = cc
ok_or_found (some b) x a h = ap some (ok_inj h)

missing_inj : {x y : Field} → missing x ≡ missing y → x ≡ y
missing_inj h = cc

module _ {J O S A : Type 0} (json : Json J O S A) where
  -- A member of an object that is there, but is no string.
  pub record NoString (object : O) (field : Field) : Type 0 where
    pub value : J
    pub present : json.get object field ≡ some value
    pub no_string : json.as_str value ≡ none

  -- The object of a file's JSON in which the reader looks for a field.
  abbrev pub parent : Field → Field
  parent addresses = addresses
  parent registry_coordinator = addresses
  parent bls_sig_check = addresses
  parent last_update = last_update
  parent block_number = last_update
  parent avs_service_manager = addresses
  parent avs_service_manager_wrapper = addresses

  -- What is wrong with a field of a JSON value: it is one of the two objects, and is none there; or it is a
  -- member of its object there, and is no string.
  abbrev pub Wrong : J → Field → Type 0
  Wrong value field =
      ((parent field ≡ field) × (json.as_object (json.member value field) ≡ none))
      ⊎ ((object : O) × (json.as_object (json.member value (parent field)) ≡ some object)
          × NoString object field)

  -- The JSON value of the file at a path has something wrong with the field.
  pub record WrongInFile (path : S) (field : Field) : Type 0 where
    pub contents : S
    pub value : J
    pub read : json.read_to_string path ≡ some contents
    pub is_json : json.from_str contents ≡ some value
    pub wrong : Wrong value field

  text_at-NoString :
      (object : O) (f field : Field)
      → text_at json object f ≡ err (missing field)
      → (f ≡ field) × NoString object f
  unfolding text_at
  text_at-NoString object f field h =
      elim (failed_step (ok_or (json.get object f) (panic_on_key f)) _ h) [
        | inl e ↦ let bad = (ok_or_failed (json.get object f) _ _ e).1 in cc
        | inr (value, (found, e)) ↦
            let failed = ok_or_failed (json.as_str value) _ _ e in
            let same = missing_inj failed.1 in
            (
              same,
              record {
                value = value;
                present = ok_or_found (json.get object f) _ value found;
                no_string = failed.0;
              },
            )
      ]

  parsed_address :
      (text : S) (is_wrapper : Bool) (field : Field)
      → ◌≡◌ {A = Result DeploymentError (A × Bool)}
          (ok_or (json.parse_address text) (not_an_address avs_service_manager) >>= λ a.
            ok (a, is_wrapper))
          (err (missing field))
      → ⊥
  parsed_address text is_wrapper field h =
      elim (failed_step (ok_or (json.parse_address text) (not_an_address avs_service_manager)) _
        h) [
          | inl e ↦ let bad = (ok_or_failed (json.parse_address text) _ _ e).1 in cc
          | inr (a, (found, e)) ↦ cc
        ]

  service_manager_failed :
      (object : O) (field : Field) → service_manager json object ≡ err (missing field) → ⊥
  unfolding service_manager
  service_manager_failed object field h =
      elim (Option-cases (optional_text json object avs_service_manager)) [
        | inr (text, e) ↦ parsed_address text false field (rw (e, service_manager) at h)
        | inl e ↦ elim (Option-cases (optional_text json object avs_service_manager_wrapper)) [
          | inr (text, g) ↦ parsed_address text true field (rw (e, g, service_manager) at h)
          | inl g ↦ let bad = rw (e, g, service_manager) at h in cc
        ]
      ]

  parsed :
      (object : O) (coordinator retriever block : S) (field : Field)
      → read_parsed json object coordinator retriever block ≡ err (missing field)
      → ⊥
  unfolding read_parsed
  parsed object coordinator retriever block field h =
      elim (failed_step (ok_or (json.parse_u64 block) not_a_number) _ h) [
        | inl e ↦ let bad = (ok_or_failed (json.parse_u64 block) _ _ e).1 in cc
        | inr (deploy_block, (e1, h1)) ↦ elim (failed_step (service_manager json object) _ h1) [
          | inl e ↦ service_manager_failed object field e
          | inr (manager, (e2, h2)) ↦
              elim (failed_step
                (ok_or (json.parse_address coordinator) (not_an_address registry_coordinator)) _
                h2) [
                  | inl e ↦ let bad = (ok_or_failed (json.parse_address coordinator) _ _ e).1 in cc
                  | inr (a, (e3, h3)) ↦
                      elim (failed_step
                        (ok_or (json.parse_address retriever) (not_an_address bls_sig_check)) _
                        h3) [
                          | inl e ↦
                              let bad = (ok_or_failed (json.parse_address retriever) _ _ e).1 in cc
                          | inr (b, (e4, h4)) ↦ cc
                        ]
                ]
        ]
      ]

  text_at-Wrong :
      (value : J) (object : O) (f field : Field)
      → json.as_object (json.member value (parent f)) ≡ some object
      → text_at json object f ≡ err (missing field)
      → Wrong value field
  text_at-Wrong value object f field found h =
      let (same, no_string) = text_at-NoString object f field h in
      subst (Wrong value) same (inr (object, found, no_string))

  ok_or-Wrong :
      (value : J) (f field : Field)
      → parent f ≡ f
      → ok_or (json.as_object (json.member value f)) (missing f) ≡ err (missing field)
      → Wrong value field
  ok_or-Wrong value f field p h =
      let (none_there, same) = ok_or_failed (json.as_object (json.member value f)) _ _ h in
      subst (Wrong value) (missing_inj same) (inl (p, none_there))

  read_fields-Wrong :
      (value : J) (object : O) (field : Field)
      → json.as_object (json.member value addresses) ≡ some object
      → read_fields json value object ≡ err (missing field)
      → Wrong value field
  unfolding read_fields
  read_fields-Wrong value object field found h =
      elim (failed_step (text_at json object registry_coordinator) _ h) [
        | inl e ↦ text_at-Wrong value object registry_coordinator field found e
        | inr (coordinator, (e1, h1)) ↦
            elim (failed_step (text_at json object bls_sig_check) _ h1) [
              | inl e ↦ text_at-Wrong value object bls_sig_check field found e
              | inr (retriever, (e2, h2)) ↦
                  elim (failed_step
                    (ok_or (json.as_object (json.member value last_update)) (missing last_update)) _
                    h2) [
                      | inl e ↦ ok_or-Wrong value last_update field refl e
                      | inr (update, (e3, h3)) ↦
                          elim (failed_step (text_at json update block_number) _ h3) [
                            | inl e ↦
                                text_at-Wrong value update block_number field
                                  (ok_or_found (json.as_object (json.member value last_update)) _
                                    update e3)
                                  e
                            | inr (block, (e4, h4)) ↦
                                absurd (parsed object coordinator retriever block field h4)
                          ]
                    ]
            ]
      ]

  value-Wrong :
      (value : J) (field : Field)
      → (ok_or (json.as_object (json.member value addresses)) (missing addresses) >>= λ object.
          read_fields json value object)
        ≡ err (missing field)
      → Wrong value field
  value-Wrong value field h =
      elim (failed_step (ok_or (json.as_object (json.member value addresses)) (missing addresses)) _
        h) [
          | inl e ↦ ok_or-Wrong value addresses field refl e
          | inr (object, (e, h')) ↦
              read_fields-Wrong value object field
                (ok_or_found (json.as_object (json.member value addresses)) _ object e) h'
        ]

  -- If the reader reports that the file at a path misses a field, the file was read and is JSON, and in that
  -- JSON either the field is one of the two objects and is no object, or it is a member of its object that is
  -- there and is no string: a key that is not there in its object is never reported so.
  pub read_avs_deployment_config-WrongInFile :
      (path : S) (field : Field)
      → read_avs_deployment_config json path ≡ err (missing field)
      → WrongInFile path field
  unfolding read_avs_deployment_config
  read_avs_deployment_config-WrongInFile path field h =
      elim (failed_step (ok_or (json.read_to_string path) unreadable) _ h) [
        | inl e ↦ let bad = (ok_or_failed (json.read_to_string path) _ _ e).1 in cc
        | inr (contents, (e1, h1)) ↦
            elim (failed_step (ok_or (json.from_str contents) not_json) _ h1) [
              | inl e ↦ let bad = (ok_or_failed (json.from_str contents) _ _ e).1 in cc
              | inr (value, (e2, h2)) ↦ record {
                contents = contents;
                value = value;
                read = ok_or_found (json.read_to_string path) _ contents e1;
                is_json = ok_or_found (json.from_str contents) _ value e2;
                wrong = value-Wrong value field h2;
              }
            ]
      ]
