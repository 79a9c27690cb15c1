-- ===== src/Store/SingleFlight/Laws.antt =====
-- A lone call through `singleflightStore` is the call of the store below it.
use reflector_go.Store.{
  Blob, BlobStore, Spec, Implements, Result, Done, Str, BlobTrace, ok, err, Deletes,
}
use reflector_go.Store.SingleFlight.{
  Group, IsAlone, getter, putter, get, put, get_reply, put_reply, getter_result, putter_result,
  with_single_flight,
}
use reflector_go.Prelude.{sym, ◌≡◌, ◌∙◌, refl}

module _ (origin : BlobStore) (sf : Group origin.State) where
  get_reply-getter_result :
      (r : Result Blob × BlobTrace × origin.State)
      → let out = get_reply origin sf (getter_result origin r) in (out.0 ≡ r.0) × (out.2 ≡ r.2)
  get_reply-getter_result (ok blob, trace, s) = (refl, refl)
  get_reply-getter_result (err e, trace, s) = (refl, refl)

  put_reply-putter_result :
      (r : Done × origin.State) → put_reply origin sf (putter_result origin r) ≡ r
  put_reply-putter_result (ok _, s) = refl
  put_reply-putter_result (err e, s) = refl

  module _ (alone : IsAlone sf) where
    pub sf_get :
        (h : Str) (s : origin.State)
        → let out = get origin sf h s in (out.0 ≡ (origin.get h s).0) × (out.2 ≡ (origin.get h s).2)
    unfolding get
    sf_get h s = rw (alone h (getter origin h) s) (get_reply-getter_result (origin.get h s))

    pub sf_put : (h : Str) (b : Blob) (s : origin.State) → put origin sf h b s ≡ origin.put h b s
    unfolding put
    sf_put h b s = rw (alone h (putter origin h b) s) (put_reply-putter_result (origin.put h b s))

    module _ (A : Spec origin) where
      abbrev pub sf_spec : Spec (with_single_flight origin sf)
      sf_spec = record { IsValid = A.IsValid; Fits = A.Fits; view = A.view }

      -- With one call at a time, `WithSingleFlight` keeps the contract of the store below it, over
      -- the same blobs.
      pub with_single_flight-Implements : Implements A → Implements sf_spec
      with_single_flight-Implements I = record {
        has_ok = I.has_ok;
        has_read = λ h s v. let r = I.has_read h s v in record { valid = r.valid; same = r.same };
        get_ok = λ h s b v e. I.get_ok h s b v (sym (sf_get h s).0 ∙ e);
        get_missing = λ h s v e. I.get_missing h s v (sym (sf_get h s).0 ∙ e);
        get_read = λ h s v.
            rw ((sf_get h s).1)
              (let r = I.get_read h s v in record { valid = r.valid; same = r.same });
        put_write = λ h b s f v. rw (sf_put h b s) (
            let r = I.put_write h b s f v in
            record { valid = r.valid; others = r.others; written = r.written; at = r.at });
        put_sd_write = λ h b s f v.
            let r = I.put_sd_write h b s f v in
            record { valid = r.valid; others = r.others; written = r.written; at = r.at };
      }

      -- If `Delete` of the store below keeps its contract, that of `WithSingleFlight` does.
      pub with_single_flight-Deletes : Deletes A → Deletes sf_spec
      with_single_flight-Deletes D = record {
        delete_write = λ h s v.
            let r = D.delete_write h s v in
            record { valid = r.valid; others = r.others; written = r.written; at = r.at };
      }
