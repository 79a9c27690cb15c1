-- ===== src/Store/Noop.antt =====
-- store/noop.go: `NoopStore`, whose `Get` succeeds with a nil blob.
use reflector_go.Prelude.{false, [], Str, bytes}
use reflector_go.Errors.{ok}
use reflector_go.Shared.{new_blob_trace}
use reflector_go.Store.{BlobStore}

abbrev name_noop : Str
name_noop = bytes "noop"

abbrev pub noop_store : BlobStore
noop_store = record {
  State = Unit {0};
  name = name_noop;
  has = λ hash s. (ok false, s);
  get = λ hash s. (ok [], new_blob_trace name_noop, s);
  put = λ hash blob s. (ok tt, s);
  put_sd = λ hash blob s. (ok tt, s);
  delete = λ hash s. (ok tt, s);
  shutdown = λ s. s;
}
