-- ===== src/Serializer.antt =====
-- thrift_serializer.h: ThriftSerializer, a protocol over a memory buffer that both outlive an object.
-- The protocol belongs to Thrift and is a parameter: its first state, and what a call makes of a state
-- and adds to the buffer, `none` where it throws an std::exception.
pub mod Reuse
use lanl_vir_parquet.Prelude.{ℕ, List, [], ◌∷◌, ◌++◌, Option, none, some}
use lanl_vir_parquet.Parquet.Protocol.{Call}
use lanl_vir_parquet.Result.{Result, ok, throw, serialize_failed, ◌>>=◌}

pub record ThriftSerializer (S : Type 0) : Type 0 where
  pub mem_buffer : List ℕ
  pub protocol : S

-- how a `write` ends, with the bytes that have come to the buffer and the state of the protocol
pub data Written (S : Type 0) : Type 0 where
  returned : List ℕ → S → Written S
  thrown : List ℕ → S → Written S

module _ {S : Type 0} (start : S) (emit : Call → S → Option (S × List ℕ)) where
  -- the constructor
  abbrev pub thrift_serializer : ThriftSerializer S
  thrift_serializer = record { mem_buffer = []; protocol = start }

  -- `obj->write(protocol_.get())`, by the calls that it makes
  unfoldable pub write : List Call → List ℕ → S → Written S
  write [] buffer s = returned buffer s
  write (c ∷ calls) buffer s = elim (emit c s) [
    | none ↦ thrown buffer s
    | some r ↦ write calls (buffer ++ r.1) r.0
  ]

  abbrev pub end_of_write : Written S → ThriftSerializer S × Result Unit
  end_of_write (returned buffer s) = (record { mem_buffer = buffer; protocol = s }, ok tt)
  end_of_write (thrown buffer s) =
      (record { mem_buffer = buffer; protocol = s }, throw serialize_failed)

  -- SerializeObject: the buffer is reset, the protocol is not
  unfoldable pub serialize_object :
      List Call → ThriftSerializer S → ThriftSerializer S × Result Unit
  unfolding write
  serialize_object calls t = end_of_write (write calls [] t.protocol)

  abbrev buffer_of : ThriftSerializer S × Result Unit → ThriftSerializer S × Result (List ℕ)
  buffer_of r = (r.0, r.1 >>= λ u. ok r.0.mem_buffer)

  -- SerializeToBuffer: `buffer` and `len` as the bytes between them
  unfoldable pub serialize_to_buffer :
      List Call → ThriftSerializer S → ThriftSerializer S × Result (List ℕ)
  unfolding serialize_object
  serialize_to_buffer calls t = buffer_of (serialize_object calls t)

  -- SerializeToString
  unfoldable pub serialize_to_string :
      List Call → ThriftSerializer S → ThriftSerializer S × Result (List ℕ)
  unfolding serialize_object
  serialize_to_string calls t = buffer_of (serialize_object calls t)

  -- objects one after another
  unfoldable pub serialize_each : List (List Call) → ThriftSerializer S → ThriftSerializer S
  unfolding serialize_to_buffer
  serialize_each [] t = t
  serialize_each (o ∷ objects) t = serialize_each objects (serialize_to_buffer o t).0
