-- ===== src/Examples/Reading.antt =====
-- A protocol whose state is the calls that are still to be read, and the metadata of an array read
-- from it.
use lanl_vir_parquet.Prelude.{
  ℕ, ◌≡◌, refl, ap, ◌∙◌, List, [], ◌∷◌, ◌++◌, Bool, false, Option, none, some, arith,
}
use lanl_vir_parquet.Prelude.Int.{ℤ}
use lanl_vir_parquet.Prelude.Text.{Text, text}
use lanl_vir_parquet.File.{Outcome, done, failed}
use lanl_vir_parquet.Parquet.{PhysicalType, CompressionCodec, Nested}
use lanl_vir_parquet.Parquet.Protocol.{
  WireType, Call, struct_begin, struct_end, field_begin, field_end, field_stop, list_begin,
  list_end, write_bool, write_i16, write_i32, write_i64, write_string, write_binary,
}
use lanl_vir_parquet.Parquet.Write.{write_page_header, write_file_meta_data}
use lanl_vir_parquet.Parquet.Read.{InputProtocol}
use lanl_vir_parquet.Parquet.Read.Pages.{read_page_header}
use lanl_vir_parquet.Parquet.Read.Footer.{read_file_meta_data}
use lanl_vir_parquet.Parquet.ReadBack.{ReadsBack, ReadsAs, Passes}
use lanl_vir_parquet.BuildMap.{page_header, file_meta_data}
use lanl_vir_parquet.BuildMap.Header.{declared_header}
use lanl_vir_parquet.BuildMap.ReadBack.{page_header-read, file_meta_data-read}

abbrev Calls : Type 0
Calls = List Call

abbrev pass_struct_begin : Calls → Outcome Calls
pass_struct_begin (struct_begin name ∷ cs) = done cs
pass_struct_begin cs = failed

abbrev pass_struct_end : Calls → Outcome Calls
pass_struct_end (struct_end ∷ cs) = done cs
pass_struct_end cs = failed

abbrev get_field_begin : Calls → Outcome (Option (WireType × ℕ) × Calls)
get_field_begin (field_begin name t id ∷ cs) = done (some (t, id), cs)
get_field_begin (field_stop ∷ cs) = done (none, cs)
get_field_begin cs = failed

abbrev pass_field_end : Calls → Outcome Calls
pass_field_end (field_end ∷ cs) = done cs
pass_field_end cs = failed

abbrev get_list_begin : Calls → Outcome (ℕ × Calls)
get_list_begin (list_begin t n ∷ cs) = done (n, cs)
get_list_begin cs = failed

abbrev pass_list_end : Calls → Outcome Calls
pass_list_end (list_end ∷ cs) = done cs
pass_list_end cs = failed

abbrev get_bool : Calls → Outcome (Bool × Calls)
get_bool (write_bool b ∷ cs) = done (b, cs)
get_bool cs = failed

abbrev get_i16 : Calls → Outcome (ℤ × Calls)
get_i16 (write_i16 i ∷ cs) = done (i, cs)
get_i16 cs = failed

abbrev get_i32 : Calls → Outcome (ℤ × Calls)
get_i32 (write_i32 i ∷ cs) = done (i, cs)
get_i32 cs = failed

abbrev get_i64 : Calls → Outcome (ℤ × Calls)
get_i64 (write_i64 i ∷ cs) = done (i, cs)
get_i64 cs = failed

abbrev get_string : Calls → Outcome (Text × Calls)
get_string (write_string x ∷ cs) = done (x, cs)
get_string cs = failed

abbrev get_binary : Calls → Outcome (List ℕ × Calls)
get_binary (write_binary x ∷ cs) = done (x, cs)
get_binary cs = failed

abbrev protocol : InputProtocol Calls
protocol = record {
  read_struct_begin = pass_struct_begin;
  read_struct_end = pass_struct_end;
  read_field_begin = get_field_begin;
  read_field_end = pass_field_end;
  read_list_begin = get_list_begin;
  read_list_end = pass_list_end;
  read_bool = get_bool;
  read_i16 = get_i16;
  read_i32 = get_i32;
  read_i64 = get_i64;
  read_string = get_string;
  read_binary = get_binary;
  skip = λ t cs. failed;
}

abbrev Has : Calls → Calls → Type 0
Has calls s = s ≡ calls

passes :
    (read : Calls → Outcome Calls) (c : Call)
    → ((cs : Calls) → read (c ∷ cs) ≡ done cs)
    → Passes Has read c
passes read c h cs s e = (cs, ap read e ∙ h cs, refl)

reads :
    {A : Type 0} (read : Calls → Outcome (A × Calls)) (c : Call) (a : A)
    → ((cs : Calls) → read (c ∷ cs) ≡ done (a, cs))
    → ReadsAs Has read (c ∷ []) a
reads read c a h cs s e = (cs, ap read e ∙ h cs, refl)

abbrev reading : ReadsBack protocol
reading = record {
  Holds = Has;
  struct_begin_back = λ name. passes pass_struct_begin (struct_begin name) (λ cs. refl);
  struct_end_back = passes pass_struct_end struct_end (λ cs. refl);
  field_begin_back =
      λ name t id. reads get_field_begin (field_begin name t id) (some (t, id)) (λ cs. refl);
  field_stop_back = reads get_field_begin field_stop none (λ cs. refl);
  field_end_back = passes pass_field_end field_end (λ cs. refl);
  list_begin_back = λ t n. reads get_list_begin (list_begin t n) n (λ cs. refl);
  list_end_back = passes pass_list_end list_end (λ cs. refl);
  bool_back = λ b. reads get_bool (write_bool b) b (λ cs. refl);
  i16_back = λ i. reads get_i16 (write_i16 i) i (λ cs. refl);
  i32_back = λ i. reads get_i32 (write_i32 i) i (λ cs. refl);
  i64_back = λ i. reads get_i64 (write_i64 i) i (λ cs. refl);
  string_back = λ x. reads get_string (write_string x) x (λ cs. refl);
  binary_back = λ x. reads get_binary (write_binary x) x (λ cs. refl);
}

abbrev no_nested : Text → Calls → Outcome (Nested × Calls)
no_nested name cs = failed

page_header-read_example :
    (s' : Calls) × (read_page_header protocol 18 no_nested
        (write_page_header (page_header 8 64 64 false) ++ [])
      ≡ done (declared_header 8 64 64, s'))
    × (s' ≡ [])
page_header-read_example =
    page_header-read protocol reading 18 (omega arith) no_nested 8 64 64 false []
      (write_page_header (page_header 8 64 64 false) ++ []) (omega arith) (omega arith) refl

file_meta_data-read_example :
    (s' : Calls) × (read_file_meta_data protocol 18 no_nested (
        write_file_meta_data (
          file_meta_data
            (text "rho")
            PhysicalType.double
            none
            CompressionCodec.uncompressed
            84
            84
            8)
        ++ [])
      ≡ done (
        file_meta_data (text "rho") PhysicalType.double none CompressionCodec.uncompressed 84 84 8,
        s',
      ))
    × (s' ≡ [])
file_meta_data-read_example =
    file_meta_data-read protocol reading 18 (omega arith) no_nested (text "rho") PhysicalType.double
      none CompressionCodec.uncompressed 84 84 8 []
      (write_file_meta_data (
          file_meta_data (text "rho") PhysicalType.double none CompressionCodec.uncompressed 84 84
            8)
        ++ [])
      refl
