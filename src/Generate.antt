-- ===== src/Generate.antt =====
-- `gen_data` (fastavro/utils.py). The module `random` is a parameter: a state, and what is drawn from it.
pub mod Primitives
use fastavro.Prelude.{
  ℕ, zero, suc, ◌+◌, ◌-◌, ◌*◌, ◌/◌, ◌%◌, ◌^◌, Bool, true, false, not, ◌||◌, List, [], ◌∷◌, ◌==◌,
  if◌then◌else◌, Option, none, some, length,
}
use fastavro.Python.Errors.{
  Result, ok, err, bind, from_option, value_error, key_error, index_error, recursion_error,
}
use fastavro.Python.Ints.{ℤ, pos, negsuc, neg, ltb_ℤ, ◌+ℤ◌, ◌-ℤ◌}
use fastavro.Python.Text.{Text, Bytes, text, eq_text}
use fastavro.Python.Floats.{Float}
use fastavro.Python.Dates.{max_ordinal}
use fastavro.Datum.{
  Datum, Items, Entries, nil, cons, no_entries, null, boolean, int, float, str, bytes, list, dict,
  set_entry,
}
use fastavro.Schema.{
  Schema, Schemas, Fields, Primitive, prim, ref, union, annotated, array, map, fixed, enum,
  record_schema, no_fields, field, extract_logical_type, find_schema, NamedSchemas, count_schemas,
}
use fastavro.Validation.{int_min, int_max, long_min, long_max}
use fastavro.Logical.Writers.{days_shift, mls_per_hour, mcs_per_hour}
use fastavro.Read.Values.{symbol_at, schema_at}

abbrev pub max_timestamp_millis : ℕ
max_timestamp_millis = 2 ^ 45

abbrev pub max_timestamp_micros : ℕ
max_timestamp_micros = 2 ^ 55

-- A draw of a number between two, of a float, of letters, of bits, and of a random UUID.
pub record Random (R : Type 0) : Type 0 where
  pub between : ℤ → ℤ → R → ℤ × R
  pub random : R → Float × R
  pub letters : ℕ → R → Text × R
  pub getrandbits : ℕ → R → ℕ × R
  pub uuid4_hex : R → Text × R

-- `int.to_bytes(num, "little")` of a number that fits.
unfoldable pub little_bytes : ℕ → ℕ → Bytes
little_bytes zero n = []
little_bytes (suc num) n = n % 256 ∷ little_bytes num (n / 256)

-- `logical_type == t`
abbrev pub is_type : Option Text → Text → Bool
is_type none t = false
is_type (some s) t = eq_text s t

module _ {R : Type 0} (random : Random R) where
  -- What is drawn, and the state after.
  abbrev pub Draw : Type 0 → Type 0
  Draw A = R → Result (A × R)

  -- `random.randint(a, b)`, for which there must be a number.
  unfoldable pub randint : ℤ → ℤ → Draw ℤ
  randint a b r = if ltb_ℤ b a then err value_error else ok (random.between a b r)

  unfoldable pub drawn_int : ℤ → ℤ → Draw Datum
  unfolding randint
  drawn_int a b r = bind (randint a b r) (λ (n, r'). ok (int n, r'))

  -- `_randbytes`
  unfoldable pub randbytes : ℕ → R → Bytes × R
  unfolding little_bytes
  randbytes num r = let (n, r') = random.getrandbits (num * 8) r in (little_bytes num n, r')

  -- `_gen_utf8`
  unfoldable pub gen_utf8 : R → Text × R
  gen_utf8 r = random.letters 10 r

  unfoldable pub gen_int : Option Text → Draw Datum
  unfolding drawn_int
  gen_int lt =
      if is_type lt (text "int-date")
      then drawn_int (neg days_shift +ℤ pos 1) (pos max_ordinal -ℤ days_shift)
      else if is_type lt (text "int-time-millis")
      then drawn_int (pos 0) (pos (mls_per_hour * 24 - 1))
      else drawn_int int_min int_max

  unfoldable pub gen_long : Option Text → Draw Datum
  unfolding drawn_int
  gen_long lt =
      if is_type lt (text "long-time-micros")
      then drawn_int (pos 0) (pos (mcs_per_hour * 24 - 1))
      else if is_type lt (text "long-timestamp-millis")
          || is_type lt (text "long-local-timestamp-millis")
      then drawn_int (pos 0) (pos max_timestamp_millis)
      else if is_type lt (text "long-timestamp-micros")
          || is_type lt (text "long-local-timestamp-micros")
      then drawn_int (pos 0) (pos max_timestamp_micros)
      else drawn_int long_min long_max

  unfoldable pub gen_string : Option Text → R → Text × R
  unfolding gen_utf8
  gen_string lt r = if is_type lt (text "string-uuid") then random.uuid4_hex r else gen_utf8 r

  unfoldable pub gen_primitive : Primitive → Option Text → Draw Datum
  unfolding gen_int gen_long gen_string randbytes randint
  gen_primitive Primitive.null lt r = ok (null, r)
  gen_primitive Primitive.string lt r = let (s, r') = gen_string lt r in ok (str s, r')
  gen_primitive Primitive.int lt r = gen_int lt r
  gen_primitive Primitive.long lt r = gen_long lt r
  gen_primitive Primitive.float lt r = let (x, r') = random.random r in ok (float x, r')
  gen_primitive Primitive.double lt r = let (x, r') = random.random r in ok (float x, r')
  gen_primitive Primitive.boolean lt r =
      bind (randint (pos 0) (pos 1) r)
        (λ (n, r'). ok (boolean (ltb_ℤ (pos 0) n || ltb_ℤ n (pos 0)), r'))
  gen_primitive Primitive.bytes lt r = let (b, r') = randbytes 10 r in ok (bytes b, r')

  -- `[gen() for _ in range(n)]` and `{_gen_utf8(): gen() for _ in range(n)}`
  unfoldable pub gen_items : Draw Datum → ℕ → Draw Items
  gen_items gen zero r = ok (nil, r)
  gen_items gen (suc n) r =
      bind (gen r) (λ (d, r'). bind (gen_items gen n r') (λ (ds, r''). ok (cons d ds, r'')))

  unfoldable pub gen_entries : Draw Datum → ℕ → Entries → Draw Entries
  unfolding gen_utf8
  gen_entries gen zero es r = ok (es, r)
  gen_entries gen (suc n) es r =
      let (key, r') = gen_utf8 r in
      bind (gen r') (λ (d, r''). gen_entries gen n (set_entry key d es) r'')

  unfoldable pub gen_fields : (Schema → Draw Datum) → Fields → Entries → Draw Entries
  gen_fields gen no_fields es r = ok (es, r)
  gen_fields gen (field name s default aliases fs) es r =
      bind (gen s r) (λ (d, r'). gen_fields gen fs (set_entry name d es) r')

  -- `schema[random.randint(0, len(schema) - 1)]`
  unfoldable pub draw_index : ℕ → Draw ℤ
  unfolding randint
  draw_index n = randint (pos 0) (pos n -ℤ pos 1)

  unfoldable pub gen_step : (Schema → Draw Datum) → NamedSchemas → Schema → Draw Datum
  unfolding gen_primitive gen_items gen_entries gen_fields draw_index randbytes
  gen_step gen named (prim p) r = gen_primitive p (extract_logical_type (prim p)) r
  gen_step gen named (annotated p a) r = gen_primitive p (extract_logical_type (annotated p a)) r
  gen_step gen named (fixed a name aliases size) r =
      let (b, r') = randbytes size r in ok (bytes b, r')
  gen_step gen named (enum a name aliases symbols default) r =
      bind (draw_index (length symbols) r)
        (λ (i, r'). bind (symbol_at symbols i) (λ s. ok (str s, r')))
  gen_step gen named (array a s) r = bind (gen_items (gen s) 10 r) (λ (ds, r'). ok (list ds, r'))
  gen_step gen named (map a s) r =
      bind (gen_entries (gen s) 10 no_entries r) (λ (es, r'). ok (dict es, r'))
  gen_step gen named (union ss) r =
      bind (draw_index (count_schemas ss) r) (λ (i, r'). bind (schema_at ss i) (λ s. gen s r'))
  gen_step gen named (record_schema a f name aliases fs) r =
      bind (gen_fields gen fs no_entries r) (λ (es, r'). ok (dict es, r'))
  gen_step gen named (ref name) r =
      bind (from_option key_error (find_schema name named)) (λ s. gen s r)

  -- The fuel is the depth of calls that Python has left.
  unfoldable pub gen_data : ℕ → NamedSchemas → Schema → Draw Datum
  unfolding gen_step
  gen_data zero named s r = err recursion_error
  gen_data (suc depth) named s r = gen_step (gen_data depth named) named s r
