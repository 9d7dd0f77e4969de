-- ===== src/Rounds/Resolution.antt =====
-- Schema resolution ends: `match_types`, `match_schemas` and `maybe_promote` of fastavro/_read_py.py.
use fastavro.Prelude.{ℕ, zero, suc, Bool, ◌&&◌, ◌||◌}
use fastavro.Python.Errors.{Result, ok, err, schema_resolution_error}
use fastavro.Python.Errors.InRounds.{InRounds, InRounds-bind, InRounds-option, InRounds-if}
use fastavro.Python.Text.{Text}
use fastavro.Schema.{
  aliases?, Schema, Schemas, TypeName, named, no_schemas, also, is_avro_type, extract_record_type,
  ref,
}
use fastavro.Context.{ReadContext}
use fastavro.Resolution.{
  eq_type, promotes, lookup_type, first_match, as_union, is_string, succeeds, contents, named_parts,
  sizes_differ, named_match, names_match, matched, match_names, match_types, match_schemas,
}

first_match-InRounds :
    (test : Schema → Result Bool)
    → ((s : Schema) → InRounds (test s))
    → (ss : Schemas) → InRounds (first_match test ss)
unfolding first_match InRounds
first_match-InRounds test h no_schemas = tt
first_match-InRounds test h (also s ss) =
    InRounds-bind (test s) _ (h s)
      (λ found. InRounds-if found (ok s) _ tt (first_match-InRounds test h ss))

succeeds-InRounds : (r : Result Schema) → InRounds r → InRounds (succeeds r)
unfolding InRounds
succeeds-InRounds (ok s) h = tt
succeeds-InRounds (err schema_resolution_error) h = tt
succeeds-InRounds (err e) h = h

matched-InRounds : (b : Bool) (s : Schema) → InRounds (matched b s)
unfolding InRounds
matched-InRounds Bool.true s = tt
matched-InRounds Bool.false s = tt

named_match-InRounds :
    (w r : Schema) (w_name r_name : Text) → InRounds (named_match w r w_name r_name)
unfolding InRounds
named_match-InRounds w r w_name r_name = matched-InRounds (names_match w_name r_name (aliases? r)) r

-- The three call one another, with fuel.
module _ (ctx : ReadContext) where
  mutual
    unfolding match_names InRounds

    match_names-InRounds : (depth : ℕ) (w r : TypeName) → InRounds (match_names ctx depth w r)
    match_names-InRounds zero w r = tt
    match_names-InRounds (suc depth) w r =
        InRounds-if (eq_type w r || promotes w r) (ok Bool.true) _ tt (
          InRounds-option (lookup_type ctx.writer w) (ok Bool.false) _ tt (λ ws.
            InRounds-option (lookup_type ctx.reader r) (ok Bool.false) _ tt
              (λ rs. match_types-InRounds depth ws rs)))

    pub match_types-InRounds : (depth : ℕ) (w r : Schema) → InRounds (match_types ctx depth w r)
    match_types-InRounds zero w r = tt
    match_types-InRounds (suc depth) w r =
        InRounds-option (as_union w) _ (λ ws. ok Bool.true)
          (InRounds-option (as_union r) _ (λ rs. ok Bool.true)
            (InRounds-if (is_string w && is_string r) _ _
              (match_names-InRounds depth (extract_record_type w) (extract_record_type r))
              (succeeds-InRounds (match_schemas ctx depth w r) (match_schemas-InRounds depth w r)))
            (λ rs. tt))
          (λ ws. tt)

    pub match_schemas-InRounds : (depth : ℕ) (w r : Schema) → InRounds (match_schemas ctx depth w r)
    match_schemas-InRounds zero w r = tt
    match_schemas-InRounds (suc depth) w r =
        InRounds-option (as_union w) _ (λ ws. ok r)
          (InRounds-option (as_union r) _ (λ rs. first_match (match_types ctx depth w) rs)
            (InRounds-option (contents w r) _ _
              (InRounds-option (named_parts r) _ _
                (InRounds-bind
                  (match_names ctx depth (extract_record_type w) (extract_record_type r)) _
                  (match_names-InRounds depth (extract_record_type w) (extract_record_type r))
                  (λ b. matched-InRounds b r))
                (λ (r_name, r_size).
                  InRounds-option (named_parts w) _ _
                    (InRounds-if (is_avro_type (extract_record_type w)) _ _
                      (InRounds-bind
                        (match_names ctx depth (extract_record_type w) (extract_record_type r)) _
                        (match_names-InRounds depth (extract_record_type w) (extract_record_type r))
                        (λ b. matched-InRounds b r))
                      (InRounds-bind (match_names ctx depth (extract_record_type w) (named r_name))
                        _ (match_names-InRounds depth (extract_record_type w) (named r_name))
                        (λ b. matched-InRounds b (ref r_name))))
                    (λ (w_name, w_size).
                      InRounds-if (sizes_differ w_size r_size) (err schema_resolution_error) _ tt
                        (named_match-InRounds w r w_name r_name))))
              (λ (wc, rc).
                InRounds-bind (match_types ctx depth wc rc) _ (match_types-InRounds depth wc rc)
                  (λ b. matched-InRounds b r)))
            (λ rs.
              first_match-InRounds (match_types ctx depth w) (match_types-InRounds depth w) rs))
          (λ ws. tt)
