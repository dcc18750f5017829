-- ===== src/Parquet/Read.antt =====
-- gen-cpp/parquet_types.cpp: what the `read` methods share. The protocol that they read from belongs to
-- Thrift and is a parameter, and so is the `read` of a struct that the program never fills in, by the
-- struct's name. `failed` is a TProtocolException.
pub mod Pages
pub mod Columns
pub mod Footer
use lanl_vir_parquet.Prelude.{
  ℕ, zero, suc, List, [], ◌∷◌, Bool, true, false, Option, none, some, if◌then◌else◌,
}
use lanl_vir_parquet.Prelude.Int.{ℤ, pos, negsuc}
use lanl_vir_parquet.Prelude.Text.{Text}
use lanl_vir_parquet.File.{Outcome, done, failed, undefined, diverged, at, ◌>>=◌}
use lanl_vir_parquet.Parquet.Protocol.{WireType}
use lanl_vir_parquet.Parquet.Nesting.{same_type}
use lanl_vir_parquet.Parquet.{
  PhysicalType, ConvertedType, FieldRepetitionType, Encoding, CompressionCodec, PageType, Nested,
}

-- `TProtocol` as an input, with a state `S`. The begin of a field is `none` for T_STOP, that of a list
-- gives its length.
pub record InputProtocol (S : Type 0) : Type 0 where
  pub read_struct_begin : S → Outcome S
  pub read_struct_end : S → Outcome S
  pub read_field_begin : S → Outcome (Option (WireType × ℕ) × S)
  pub read_field_end : S → Outcome S
  pub read_list_begin : S → Outcome (ℕ × S)
  pub read_list_end : S → Outcome S
  pub read_bool : S → Outcome (Bool × S)
  pub read_i16 : S → Outcome (ℤ × S)
  pub read_i32 : S → Outcome (ℤ × S)
  pub read_i64 : S → Outcome (ℤ × S)
  pub read_string : S → Outcome (Text × S)
  pub read_binary : S → Outcome (List ℕ × S)
  pub skip : WireType → S → Outcome S

-- `static_cast` to an enumeration, by the names of its numbers: a number without a name is no value of
-- the model's type.
abbrev pub named : {E : Type 0} → Option E → Outcome E
named none = undefined
named (some e) = done e

abbrev pub cast_to : {E : Type 0} → List (Option E) → ℤ → Outcome E
cast_to names (pos n) = at names n >>= named
cast_to names (negsuc n) = undefined

abbrev pub physical_types : List (Option PhysicalType)
physical_types =
    some PhysicalType.boolean
    ∷ some PhysicalType.int32
    ∷ some PhysicalType.int64
    ∷ some PhysicalType.int96
    ∷ some PhysicalType.float
    ∷ some PhysicalType.double
    ∷ some PhysicalType.byte_array
    ∷ some PhysicalType.fixed_len_byte_array
    ∷ []

abbrev pub converted_types : List (Option ConvertedType)
converted_types =
    some ConvertedType.utf8
    ∷ some ConvertedType.map_type
    ∷ some ConvertedType.map_key_value
    ∷ some ConvertedType.list_type
    ∷ some ConvertedType.enum_type
    ∷ some ConvertedType.decimal
    ∷ some ConvertedType.date
    ∷ some ConvertedType.time_millis
    ∷ some ConvertedType.time_micros
    ∷ some ConvertedType.timestamp_millis
    ∷ some ConvertedType.timestamp_micros
    ∷ some ConvertedType.uint_8
    ∷ some ConvertedType.uint_16
    ∷ some ConvertedType.uint_32
    ∷ some ConvertedType.uint_64
    ∷ some ConvertedType.int_8
    ∷ some ConvertedType.int_16
    ∷ some ConvertedType.int_32
    ∷ some ConvertedType.int_64
    ∷ some ConvertedType.json
    ∷ some ConvertedType.bson
    ∷ some ConvertedType.interval
    ∷ []

abbrev pub repetition_types : List (Option FieldRepetitionType)
repetition_types =
    some FieldRepetitionType.required
    ∷ some FieldRepetitionType.optional
    ∷ some FieldRepetitionType.repeated
    ∷ []

abbrev pub encodings_by_number : List (Option Encoding)
encodings_by_number =
    some Encoding.plain
    ∷ none
    ∷ some Encoding.plain_dictionary
    ∷ some Encoding.rle
    ∷ some Encoding.bit_packed
    ∷ some Encoding.delta_binary_packed
    ∷ some Encoding.delta_length_byte_array
    ∷ some Encoding.delta_byte_array
    ∷ some Encoding.rle_dictionary
    ∷ some Encoding.byte_stream_split
    ∷ []

abbrev pub codecs : List (Option CompressionCodec)
codecs =
    some CompressionCodec.uncompressed
    ∷ some CompressionCodec.snappy
    ∷ some CompressionCodec.gzip
    ∷ some CompressionCodec.lzo
    ∷ some CompressionCodec.brotli
    ∷ some CompressionCodec.lz4
    ∷ some CompressionCodec.zstd
    ∷ some CompressionCodec.lz4_raw
    ∷ []

abbrev pub page_types : List (Option PageType)
page_types =
    some PageType.data_page
    ∷ some PageType.index_page
    ∷ some PageType.dictionary_page
    ∷ some PageType.data_page_v2
    ∷ []

-- a field without which a struct is invalid
abbrev pub require : {A : Type 0} → Option A → Outcome A
require none = failed
require (some a) = done a

module _ {S : Type 0} (p : InputProtocol S) where
  unfoldable pub read_enum : {E : Type 0} → List (Option E) → S → Outcome (E × S)
  read_enum names s = p.read_i32 s >>= λ r. cast_to names r.0 >>= λ e. done (e, r.1)

  -- the loop over the elements of a list, by those that are left
  unfoldable pub read_elements : {A : Type 0} → (S → Outcome (A × S)) → ℕ → S → Outcome (List A × S)
  read_elements read zero s = done ([], s)
  read_elements read (suc n) s =
      read s >>= λ a. read_elements read n a.1 >>= λ r. done (a.0 ∷ r.0, r.1)

  unfoldable pub read_list : {A : Type 0} → (S → Outcome (A × S)) → S → Outcome (List A × S)
  unfolding read_elements
  read_list read s = p.read_list_begin s >>= λ n.
      read_elements read n.0 n.1 >>= λ r. p.read_list_end r.1 >>= λ s'. done (r.0, s')

  -- One case of the switch: a value of its type is read and stored, another one is skipped.
  abbrev pub store :
      {A D : Type 0}
      → WireType
      → WireType
      → D
      → (A → D)
      → (S → Outcome (A × S))
      → S
      → Outcome (D × S)
  store expected ftype d set read s =
      if same_type ftype expected
      then (read s >>= λ a. done (set a.0, a.1))
      else (p.skip ftype s >>= λ s'. done (d, s'))

  abbrev pub skip_field : {D : Type 0} → WireType → D → S → Outcome (D × S)
  skip_field ftype d s = p.skip ftype s >>= λ s'. done (d, s')

  -- The loop over the fields of a struct; `D` is the struct with what has been set so far.
  unfoldable pub read_fields :
      {D : Type 0} → (ℕ → WireType → D → S → Outcome (D × S)) → (fuel : ℕ) → D → S → Outcome (D × S)
  read_fields case zero d s = diverged
  read_fields case (suc fuel) d s = p.read_field_begin s >>= λ r. elim r.0 [
    | none ↦ done (d, r.1)
    | some f ↦
        case f.1 f.0 d r.1 >>= λ q. p.read_field_end q.1 >>= λ s'. read_fields case fuel q.0 s'
  ]

  unfoldable pub read_struct :
      {D A : Type 0}
      → (fuel : ℕ) → (ℕ → WireType → D → S → Outcome (D × S))
      → D
      → (D → Outcome A)
      → S
      → Outcome (A × S)
  unfolding read_fields
  read_struct fuel case d checked s = p.read_struct_begin s >>= λ s1.
      read_fields case fuel d s1 >>= λ r.
      p.read_struct_end r.1 >>= λ s2. checked r.0 >>= λ a. done (a, s2)
