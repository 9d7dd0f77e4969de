-- ===== src/Tests/Generate.antt =====
-- Generated data, with a source of random numbers that always takes the least.
use fastavro.Prelude.{ℕ, suc, replicate, some, ◌≡◌, true, arith}
use fastavro.Python.Errors.{ok}
use fastavro.Python.Text.{text}
use fastavro.Datum.{Datum}
use fastavro.Schema.{Primitive}
use fastavro.Validation.{validate_primitive}
use fastavro.Generate.{Random, gen_primitive}
use fastavro.Generate.Primitives.{IsFair, gen_primitive-validate_primitive}

abbrev least : Random ℕ
least = record {
  between = λ a b r. (a, suc r);
  random = λ r. (0, suc r);
  letters = λ k r. (replicate k 97, suc r);
  getrandbits = λ k r. (0, suc r);
  uuid4_hex = λ r. (replicate 32 48, suc r);
}

least-IsFair : IsFair least
least-IsFair a b r h = (omega arith, h)

gen_primitive-validate_primitive_example :
    (d : Datum) × (r : ℕ) × (gen_primitive least Primitive.int (some (text "int-date")) 0
      ≡ ok (d, r))
    × (validate_primitive Primitive.int d ≡ true)
gen_primitive-validate_primitive_example =
    gen_primitive-validate_primitive least Primitive.int (some (text "int-date")) 0 least-IsFair
