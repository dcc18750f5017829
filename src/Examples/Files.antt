-- ===== src/Examples/Files.antt =====
-- Base64 views and array headers on small files.

use lanl_vir_parquet.Prelude.{
  ℕ, zero, suc, ◌*◌, ◌<◌, ◌≡◌, refl, List, [], ◌∷◌, ◌++◌, arith, length, add64,
}
use lanl_vir_parquet.Prelude.Text.{text}
use lanl_vir_parquet.File.{done, failed, RandomAccessFile, string_buf_file}
use lanl_vir_parquet.File.Serves.{IsExact, string_buf_file_lem}
use lanl_vir_parquet.Result.{ok, throw, ub, array_header_unread, block_sizes_unread}
use lanl_vir_parquet.Base64.{DecodeTriplet, decode_in, decode4, pread_typed, base64_reader}
use lanl_vir_parquet.Base64.Decode.{Group, Encodes, pread_typed_lem, base64_reader_past}
use lanl_vir_parquet.Arr.{
  parse_compressed64, parse_compressed32, parse_uncompressed64, parse_uncompressed32, size32,
}
use lanl_vir_parquet.Arr.Words.{all_bytes}
use lanl_vir_parquet.Arr.Header.{
  HasHeader, header_bytes, parse_compressed64-header, parse_compressed32-header,
}
use lanl_vir_parquet.Arr.Short.{parse_uncompressed_lem, parse_compressed32_wraps}
use lanl_vir_parquet.Arr.Truncated.{IsCut, parse_compressed64-cut, parse_compressed32-cut}

-- A decoder that knows one word: "YWJj" stands for "abc".
abbrev decode : DecodeTriplet
decode i0 i1 i2 i3 = record { count = 3; c0 = 97; c1 = 98; c2 = 99 }

abbrev encoded : RandomAccessFile
encoded = string_buf_file (text "YWJj")

first-Group : (k : ℕ) → 3 * k < 3 → Group decode encoded 0 (text "abc") k
unfolding string_buf_file
first-Group zero h = record {
  i0 = 89;
  i1 = 87;
  i2 = 74;
  i3 = 106;
  reads = refl;
  counts = refl;
  stands = refl;
}
first-Group (suc k) h = absurd (omega arith)

encodes : Encodes decode encoded 0 (text "abc")
encodes = record { small = omega arith; group = first-Group }

pread_typed_lem_example : pread_typed decode encoded 0 2 1 ≡ done (text "bc")
pread_typed_lem_example = pread_typed_lem decode encoded 0 (text "abc") encodes 2 1 (omega arith)

past_end : decode4 decode encoded 0 4 ≡ failed
unfolding decode4 decode_in string_buf_file add64
past_end = refl

base64_reader_past_example : base64_reader decode encoded 0 2 2 ≡ failed
base64_reader_past_example =
    base64_reader_past decode encoded 0 (text "abc") encodes 2 2 past_end (omega arith)
      (omega arith)

-- A header of one block in words of eight and of four bytes, and two bytes of data.
abbrev content64 : List ℕ
content64 = header_bytes 8 1 10 10 (2 ∷ []) ++ 7 ∷ 7 ∷ []

abbrev content32 : List ℕ
content32 = header_bytes 4 1 10 10 (2 ∷ []) ++ 7 ∷ 7 ∷ []

has_header64 : HasHeader content64 8 1 10 10 (2 ∷ []) (7 ∷ 7 ∷ []) 0
has_header64 = record {
  at = refl;
  inside = omega arith;
  small = omega arith;
  count = refl;
  heads = (omega arith, (omega arith, (omega arith, tt)));
  sizes = (omega arith, tt);
}

has_header32 : HasHeader content32 4 1 10 10 (2 ∷ []) (7 ∷ 7 ∷ []) 0
has_header32 = record {
  at = refl;
  inside = omega arith;
  small = omega arith;
  count = refl;
  heads = (omega arith, (omega arith, (omega arith, tt)));
  sizes = (omega arith, tt);
}

text-IsExact : (t : List ℕ) → IsExact (string_buf_file t) t
text-IsExact t size offset h = string_buf_file_lem t size offset

parse_compressed64-header_example :
    parse_compressed64 (string_buf_file content64) 0
    ≡ ok (record {
      num_blks = 1;
      blk_sz = 10;
      last_blk_sz = 10;
      compressed_blk_sz = 2 ∷ [];
      data_start = 32;
    })
parse_compressed64-header_example =
    parse_compressed64-header (string_buf_file content64) content64 (text-IsExact content64) 1 10 10
      (2 ∷ []) (7 ∷ 7 ∷ []) 0 has_header64 (omega arith)

parse_compressed32-header_example :
    parse_compressed32 (string_buf_file content32) 0
    ≡ ok (record {
      num_blks = 1;
      blk_sz = 10;
      last_blk_sz = 10;
      compressed_blk_sz = 2 ∷ [];
      data_start = 16;
    })
parse_compressed32-header_example =
    parse_compressed32-header (string_buf_file content32) content32 (text-IsExact content32) 1 10 10
      (2 ∷ []) (7 ∷ 7 ∷ []) 0 has_header32 (omega arith)

string_buf_file_lem_example : string_buf_file (text "abc") 5 1 ≡ done (text "bc")
string_buf_file_lem_example = string_buf_file_lem (text "abc") 5 1

abbrev word : List ℕ
word = 7 ∷ 0 ∷ 0 ∷ 0 ∷ 0 ∷ []

parse_uncompressed_lem_example :
    (parse_uncompressed64 (string_buf_file word) 0 ≡ throw array_header_unread)
    × (parse_uncompressed32 (string_buf_file word) 0
        ≡ ok (record { total_bytes = 7; data_start = 4 }))
parse_uncompressed_lem_example =
    parse_uncompressed_lem (string_buf_file word) word (string_buf_file_lem word) 0 (omega arith)

-- the three words of a header and nothing behind them
abbrev head64 : List ℕ
head64 = all_bytes 8 (1 ∷ 10 ∷ 10 ∷ [])

abbrev head32 : List ℕ
head32 = all_bytes 4 (1073741824 ∷ 10 ∷ 10 ∷ [])

head64-IsCut : IsCut head64 8 1 10 10 (10 ∷ []) 24 0
head64-IsCut = record {
  at = refl;
  inside = omega arith;
  small = omega arith;
  cut = omega arith;
  count = refl;
  heads = (omega arith, (omega arith, (omega arith, tt)));
}

parse_compressed64-cut_example :
    parse_compressed64 (string_buf_file head64) 0 ≡ throw block_sizes_unread
parse_compressed64-cut_example =
    parse_compressed64-cut (string_buf_file head64) head64 (string_buf_file_lem head64) 1 10 10
      (10 ∷ []) 24 0 head64-IsCut (omega arith)

-- a header in 32-bit words of which one byte is missing
abbrev short32 : List ℕ
short32 = all_bytes 4 (1 ∷ 10 ∷ 10 ∷ []) ++ 10 ∷ 0 ∷ 0 ∷ []

short32-IsCut : IsCut short32 4 1 10 10 (10 ∷ []) 15 0
short32-IsCut = record {
  at = refl;
  inside = omega arith;
  small = omega arith;
  cut = omega arith;
  count = refl;
  heads = (omega arith, (omega arith, (omega arith, tt)));
}

parse_compressed32-cut_example :
    parse_compressed32 (string_buf_file short32) 0 ≡ throw block_sizes_unread
parse_compressed32-cut_example =
    parse_compressed32-cut (string_buf_file short32) short32 (string_buf_file_lem short32) 1 10 10
      (10 ∷ []) 15 0 short32-IsCut (omega arith)

reads32 : string_buf_file head32 12 0 ≡ done head32
unfolding string_buf_file
reads32 = refl

no_bytes : string_buf_file head32 (size32 1073741824) (add64 0 12) ≡ done []
unfolding string_buf_file size32 add64
no_bytes = refl

wrapped : length {A = ℕ} [] ≡ size32 1073741824
unfolding size32
wrapped = refl

parse_compressed32_wraps_example :
    (length {A = ℕ} [] < 4 * 1073741824) × (parse_compressed32 (string_buf_file head32) 0 ≡ ub)
parse_compressed32_wraps_example =
    parse_compressed32_wraps (string_buf_file head32) 0 1073741824 10 10 head32 [] reads32 refl refl
      (omega arith) no_bytes wrapped
