-- ===== src/Tests/Peers.antt =====
-- The peer server over a memory store.
use reflector_go.Prelude.{
  bytes, refl, none, ◌≢◌, List, true, str_eq, ℕ, ◌∷◌, Str, [], some, ◌≡◌, suc, if◌then◌else◌, zero,
}
use reflector_go.Prelude.Int.{pos, is_negative}
use reflector_go.Prelude.Dict.{lookup}
use reflector_go.Errors.{ok}
use reflector_go.Store.{Blob}
use reflector_go.Store.Mem
use reflector_go.Store.Mem.{MemStore, mem_store, mem_spec, mem_store-Implements}
use reflector_go.Peer.Server.{
  CompositeRequest, CompositeResponse, handle_composite_request, rate_accepted, incoming,
  rate_too_low,
}
use reflector_go.Peer.Server.Answers.{held, IsAnswer, handle_composite_request-IsAnswer}
use reflector_go.Peer.Connection.{PeerConn, handle_connection, out_of_fuel}
use reflector_go.Peer.Connection.Ends.{handle_connection_ends}

abbrev copies : ℕ → ℕ → Str
copies zero c = []
copies (suc n) c = c ∷ copies n c

abbrev key : Str
key = copies 96 b'a'

abbrev digest : List ℕ → List ℕ
digest b = b

abbrev AnyBlob : Str → Blob → Type 0
AnyBlob h b = Unit

abbrev holding : MemStore
holding = record { blobs = (key, 7 ∷ []) ∷ [] }

abbrev request : CompositeRequest
request = record {
  requested_blobs = key ∷ bytes "zz" ∷ [];
  blob_data_payment_rate = pos 1;
  requested_blob = key;
}

abbrev response : CompositeResponse
response = record {
  available_blobs = key ∷ [];
  blob_data_payment_rate = rate_accepted;
  incoming_blob = incoming (bytes "07") 1;
}

composite_run :
    (handle_composite_request mem_store digest request holding).0 ≡ ok (response, 7 ∷ [])
unfolding handle_composite_request Mem.has Mem.get lookup str_eq
composite_run = refl

handle_composite_request-IsAnswer_example :
    (key ∷ [] ≡ held (mem_spec AnyBlob) digest holding (key ∷ bytes "zz" ∷ []))
    × (rate_accepted ≡ (if is_negative (pos 1) then rate_too_low else rate_accepted))
    × IsAnswer
        (mem_spec AnyBlob)
        digest
        (lookup key holding.blobs)
        key
        (incoming (bytes "07") 1, 7 ∷ [])
handle_composite_request-IsAnswer_example =
    handle_composite_request-IsAnswer (mem_spec AnyBlob) digest (mem_store-Implements AnyBlob)
      request holding response (7 ∷ []) (λ h b e. tt) composite_run

abbrev conn : PeerConn mem_store digest (λ m. true) (λ m. some request)
conn = record {
  buffer = record { input = bytes "{}{}"; ending = none };
  responses = [];
  write_errors = [];
  store_state = holding;
}

handle_connection_ends_example :
    (handle_connection mem_store digest (λ m. true) (λ m. some request) conn).0 ≢ out_of_fuel
handle_connection_ends_example =
    handle_connection_ends mem_store digest (λ m. true) (λ m. some request) conn
