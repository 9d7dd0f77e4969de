-- ===== src/Tests/RoundTrip.antt =====
-- A nested record, written and read back.
use fastavro.Prelude.{refl, arith, none, ◌++◌, ◌≡◌, [], ◌∷◌}
use fastavro.Context.{default_write_options, default_read_options}
use fastavro.Python.Ints.{pos, negsuc}
use fastavro.Python.Text.{eq_text, text, encode, encode_char}
use fastavro.Datum.{nil, cons, str}
use fastavro.Schema.{prim, ref, Primitive, extract_logical_type, find_schema}
use fastavro.Validation.{
  validate, validate_record, all_fields, validate_long, validate_array, all_items, validate_union,
  validate_any, run_validator, validate_primitive, validate_null, prepare,
}
use fastavro.Write.Unions.{
  choose_branch, choose_any, choose_from, try_candidate, fitting_candidate, resolve,
}
use fastavro.RoundTrip.Primitives.{FitsPrimitive}
use fastavro.Write.Data.{write_data}
use fastavro.Read.Data.{read_data}
use fastavro.RoundTrip.Fits.{Fits}
use fastavro.RoundTrip.Data.{read_data-write_data}
use fastavro.Python.Errors.{wrote, ok, output}
use fastavro.Tests.Samples.{node, last_datum, node_datum, write_context, read_context}

-- The last node, at the depth that the first leaves it.
last-Fits : Fits 3 write_context default_write_options last_datum node
unfolding extract_logical_type choose_branch choose_any choose_from try_candidate fitting_candidate
    resolve validate run_validator validate_primitive validate_null prepare eq_text find_schema
last-Fits = (
  refl,
  (
    _,
    refl,
    (refl, (refl, (refl, tt))),
    (
      refl,
      λ e. cc,
      (refl, FitsPrimitive.long (pos 7) (omega arith)),
      (
        refl,
        λ e. cc,
        (refl, (nil, refl, omega arith, tt)),
        (
          refl,
          λ e. cc,
          (refl, (0, prim Primitive.null, refl, refl, omega arith, (refl, FitsPrimitive.null))),
          tt,
        ),
      ),
    ),
  ),
)

pub node-Fits : Fits 6 write_context default_write_options node_datum node
unfolding extract_logical_type choose_branch choose_any choose_from try_candidate fitting_candidate
    resolve validate run_validator validate_primitive validate_null prepare eq_text find_schema
    encode encode_char validate_record all_fields validate_long validate_array all_items
    validate_union validate_any
node-Fits = (
  refl,
  (
    _,
    refl,
    (refl, (refl, (refl, tt))),
    (
      refl,
      λ e. cc,
      (refl, FitsPrimitive.long (negsuc 299) (omega arith)),
      (
        refl,
        λ e. cc,
        (
          refl,
          (
            cons (str (text "é")) nil,
            refl,
            omega arith,
            (
              (
                refl,
                FitsPrimitive.string (text "é") (0xC3 ∷ 0xA9 ∷ []) (ground arith) refl
                    (omega arith),
              ),
              tt,
            ),
          ),
        ),
        (
          refl,
          λ e. cc,
          (refl, (1, ref (text "Node"), refl, refl, omega arith, (refl, (node, refl, last-Fits)))),
          tt,
        ),
      ),
    ),
  ),
)

read_data-write_data_example :
    (write_data 6 write_context default_write_options node_datum node
      ≡ wrote (output (write_data 6 write_context default_write_options node_datum node)))
    × (read_data 6 read_context default_read_options node none
          (output (write_data 6 write_context default_write_options node_datum node) ++ 0xFF ∷ [])
        ≡ ok (node_datum, 0xFF ∷ []))
read_data-write_data_example =
    read_data-write_data 6 write_context default_write_options read_context node_datum node
      (0xFF ∷ []) refl node-Fits
