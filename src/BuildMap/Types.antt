-- ===== src/BuildMap/Types.antt =====
-- fmap.cc: the types and codecs of Parquet that the arrays of VTK get.
use lanl_vir_parquet.Prelude.{Option, none, some}
use lanl_vir_parquet.Result.{Result, ok, throw, unsupported_array_type, unsupported_compression}
use lanl_vir_parquet.Arr.{
  DataType, int8, uint8, int32, uint32, int64, uint64, float32, float64, unknown, CompressionType,
}
use lanl_vir_parquet.Parquet.{PhysicalType, ConvertedType, CompressionCodec}

unfoldable pub to_parquet_converted_type : DataType → Result (Option ConvertedType)
to_parquet_converted_type int8 = ok (some ConvertedType.int_8)
to_parquet_converted_type uint8 = ok (some ConvertedType.uint_8)
to_parquet_converted_type int32 = ok (some ConvertedType.int_32)
to_parquet_converted_type uint32 = ok (some ConvertedType.uint_32)
to_parquet_converted_type int64 = ok (some ConvertedType.int_64)
to_parquet_converted_type uint64 = ok (some ConvertedType.uint_64)
to_parquet_converted_type float32 = ok none
to_parquet_converted_type float64 = ok none
to_parquet_converted_type unknown = throw unsupported_array_type

unfoldable pub to_parquet_type : DataType → Result PhysicalType
to_parquet_type int8 = ok PhysicalType.int32
to_parquet_type uint8 = ok PhysicalType.int32
to_parquet_type int32 = ok PhysicalType.int32
to_parquet_type uint32 = ok PhysicalType.int32
to_parquet_type int64 = ok PhysicalType.int64
to_parquet_type uint64 = ok PhysicalType.int64
to_parquet_type float32 = ok PhysicalType.float
to_parquet_type float64 = ok PhysicalType.double
to_parquet_type unknown = throw unsupported_array_type

unfoldable pub to_parquet_codec : CompressionType → Result CompressionCodec
to_parquet_codec CompressionType.uncompressed = ok CompressionCodec.uncompressed
to_parquet_codec CompressionType.zlib = ok CompressionCodec.gzip
to_parquet_codec CompressionType.lz4 = ok CompressionCodec.lz4_raw
to_parquet_codec CompressionType.unknown_compression = throw unsupported_compression
