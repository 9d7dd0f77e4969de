-- ===== src/RoundTrip/Records.antt =====
-- Records: the fields are written in the schema's order and read back under their names.
use fastavro.Prelude.{
  true, false, List, [], ◌≡◌, refl, ap, sym, subst, some, none, Option, Bool-cases, inl, inr, arith,
}
use fastavro.Python.Errors.{ok, Written, ◌>>◌}
use fastavro.Python.Text.{Text}
use fastavro.Python.Floats.{Float}
use fastavro.Python.Files.{Reader}
use fastavro.Datum.{Datum, Entries, no_entries, entry, float, dict, get, contains, set_entry}
use fastavro.Schema.{Schema, Fields, no_fields, field}
use fastavro.Context.{WriteContext, WriteOptions}
use fastavro.Write.Values.{Write}
use fastavro.Write.Records.{is_float_type, field_value, write_fields, has_extras, write_record}
use fastavro.Read.Values.{Read, Skip}
use fastavro.Read.Records.{read_fields, read_record}
use fastavro.RoundTrip.Transmits.{Transmits, transmit_then, transmit_pair, transmit_writer}
use fastavro.RoundTrip.Containers.{
  append_entries, append_entries_assoc, append_entries-no_entries, IsDict, get-before,
  set_entry-fresh, get-in, eq_text_refl,
}

-- A datum of a field whose type is `float` or `double` is a float.
abbrev pub IsFloatFor : Datum → Schema → Type 0
IsFloatFor d s = is_float_type s ≡ true → (x : Float) × (d ≡ float x)

-- The dictionary has just the schema's fields, in their order, with values that fit.
abbrev pub AllFields : (Datum → Schema → Type 0) → Entries → Fields → Type 0
AllFields fits no_entries no_fields = Unit {0}
AllFields fits (entry k d es) (field name s default aliases fs) =
    (k ≡ name) × IsFloatFor d s × fits d s × AllFields fits es fs
AllFields fits _ _ = ⊥

contains-present :
    (name : Text) (es : Entries) (d : Datum) → get name es ≡ some d → contains name es ≡ true
contains-present name es d e = rw (e, contains)

-- A value that is there is written as it is, whatever the options.
field_value-present :
    (ctx : WriteContext) (options : WriteOptions) (es : Entries) (name : Text) (s : Schema)
    (default : Option Datum) (d : Datum)
    → get name es ≡ some d
    → IsFloatFor d s
    → field_value ctx options es name s default ≡ ok d
unfolding field_value
field_value-present ctx options es name s default d e is_real =
    rw (contains-present name es d e, e)
      (elim (Bool-cases (is_float_type s)) [
        | inl yes_float ↦ rw (yes_float, (is_real yes_float).1)
        | inr no_float ↦ rw no_float
      ])

has_extras-weaken :
    (es : Entries) (name : Text) (s : Schema) (default : Option Datum) (aliases : List Text)
    (fs : Fields)
    → has_extras es fs ≡ false
    → has_extras es (field name s default aliases fs) ≡ false
unfolding has_extras
has_extras-weaken no_entries name s default aliases fs h = refl
has_extras-weaken (entry k d es) name s default aliases fs h =
    ground (arith, has_extras-weaken es name s default aliases fs)

has_extras-AllFields :
    (fits : Datum → Schema → Type 0) (es : Entries) (fs : Fields)
    → AllFields fits es fs
    → has_extras es fs ≡ false
unfolding has_extras
has_extras-AllFields fits no_entries no_fields h = refl
has_extras-AllFields fits no_entries (field name s default aliases fs) h = elim h [ ]
has_extras-AllFields fits (entry k d es) no_fields h = elim h [ ]
has_extras-AllFields fits (entry k d es) (field name s default aliases fs) (e, is_real, hd, hs) =
    rw (e, eq_text_refl name)
      (has_extras-weaken es name s default aliases fs (has_extras-AllFields fits es fs hs))

module _ (write : Write) (read : Read) (fits : Datum → Schema → Type 0)
    (transmits : (d : Datum) (s : Schema) → fits d s → Transmits (write d s) (read s none) d)
    (ctx : WriteContext) (options : WriteOptions) where
  transmit_fields :
      (pre es : Entries) (fs : Fields)
      → IsDict (append_entries pre es)
      → AllFields fits es fs
      → Transmits
          (write_fields write ctx options (append_entries pre es) fs)
          (read_fields read fs pre)
          (append_entries pre es)
  unfolding write_fields read_fields
  transmit_fields pre no_entries no_fields hd h =
      ([], refl, λ rest. ap (λ (xs : Entries). ok (xs, rest)) (sym (append_entries-no_entries pre)))
  transmit_fields pre no_entries (field name s default aliases fs) hd h = elim h [ ]
  transmit_fields pre (entry k d es) no_fields hd h = elim h [ ]
  transmit_fields pre (entry k d es) (field name s default aliases fs) hd (e, is_real, h, hs) =
      transmit_writer all_read value_written (
        transmit_pair (read s none) _ (transmits d s h) (
          subst (λ (es' : Entries). Transmits rest_written (read_fields read fs es') whole)
            (sym added)
            (subst
              (λ (es' : Entries).
                Transmits (write_fields write ctx options es' fs) (read_fields read fs longer) es')
              (append_entries_assoc pre (entry k d no_entries) es)
              (transmit_fields longer es fs
                (subst IsDict (sym (append_entries_assoc pre (entry k d no_entries) es)) hd) hs))))
    where
      whole : Entries
      whole = append_entries pre (entry k d es)

      longer : Entries
      longer = append_entries pre (entry k d no_entries)

      rest_written : Written
      rest_written = write_fields write ctx options whole fs

      all_read : Reader Entries
      all_read = read_fields read (field name s default aliases fs) pre

      added : set_entry name d pre ≡ longer
      added = rw (← e) (set_entry-fresh k d pre (get-before pre k d es hd))

      found : get name whole ≡ some d
      found = rw (← e) (get-in pre k d es (get-before pre k d es hd))

      value_written :
          write_fields write ctx options whole (field name s default aliases fs)
          ≡ (write d s >> rest_written)
      value_written = rw (field_value-present ctx options whole name s default d found is_real)

  -- A record that has just the schema's fields, whether or not the options are strict.
  pub transmit_record :
      (skip : Skip) (es : Entries) (fs : Fields)
      → IsDict es
      → AllFields fits es fs
      → Transmits
          (write_record write ctx options (dict es) fs)
          (read_record read skip fs none)
          (dict es)
  unfolding write_record read_record
  transmit_record skip es fs hd h = transmit_writer (read_record read skip fs none) no_extras (
      transmit_then (read_fields read fs no_entries) _ (transmit_fields no_entries es fs hd h)
        (λ rest. refl))
    where
      no_extras : write_record write ctx options (dict es) fs ≡ write_fields write ctx options es fs
      no_extras = rw (has_extras-AllFields fits es fs h) (ground arith)
