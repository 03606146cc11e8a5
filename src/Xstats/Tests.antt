-- ===== src/Xstats/Tests.antt =====
-- Concrete runs of the session counters, and the witnesses of the theorems.
use common_lib_go.Prelude.{
  ℕ, ◌+◌, ◌%◌, ◌^◌, ◌≡◌, refl, true, some, lookup, List, [], ◌∷◌, length, drop, arith,
}
use common_lib_go.Xcache.{Bytes, ok, err, no_data}
use common_lib_go.Xcache.Invariant.{Valid}
use common_lib_go.Xcache.Methods.{empty_bucket}
use common_lib_go.Xcache.Laws.{empty_bucket-Valid}
use common_lib_go.Xcache.Cache.{Cache, get, bucket_of}
use common_lib_go.Xstats.{parse_rx_tx, add_rx_tx}
use common_lib_go.Xstats.Codec.{AreBytes, add_rx_tx_lem}
use common_lib_go.Xstats.Service.{SessionData, Session, Codecs, parse, to_value}
use common_lib_go.Xstats.RoundTrip.{reported, parse-to_value}
use common_lib_go.Xstats.Totals.{total_rx, total_tx, report_all, parse-report_all}

-- Codecs that know the user only.
abbrev user_only : Codecs
user_only = record {
  marshal = λ d. d.user_id;
  unmarshal = λ bs. record { installation_id = []; user_id = bs; country = [] };
  uuid_text = λ k. k;
}

abbrev data_of_session : Bytes → SessionData
data_of_session id = record { installation_id = []; user_id = 65 ∷ 66 ∷ []; country = [] }

abbrev one_session : Session
one_session = record { session_id = 1 ∷ []; session_data = data_of_session [] }

abbrev hash : Bytes → ℕ
hash k = 5

abbrev zeros : ℕ → ℕ
zeros i = 0

unfoldable new_cache : Cache
unfolding empty_bucket
new_cache = record { buckets = λ i. empty_bucket 2; notify = true }

new_cache-Valid : Valid (new_cache.buckets (bucket_of hash (1 ∷ []))) []
unfolding new_cache empty_bucket
new_cache-Valid = empty_bucket-Valid 2 (omega arith) (omega arith)

new_cache_absent : get hash new_cache (1 ∷ []) ≡ err no_data
unfolding new_cache get lookup
new_cache_absent = refl

abbrev later_reports : List (ℕ × ℕ × ℕ)
later_reports = (5, 6, 101) ∷ (0, 0, 102) ∷ []

parse-report_all_example :
    (c' : Cache) × (x : Bytes) × (report_all user_only data_of_session
        (1 ∷ [])
        hash
        zeros
        new_cache
        ((3, 4, 100) ∷ later_reports)
      ≡ some c')
    × (get hash c' (1 ∷ []) ≡ ok x)
    × (parse user_only (1 ∷ []) x 200
        ≡ some (
            reported user_only
              (1 ∷ [])
              (total_rx 3 later_reports)
              (total_tx 4 later_reports)
              100
              200
              (data_of_session (1 ∷ []))))
parse-report_all_example =
    parse-report_all user_only data_of_session (1 ∷ []) hash zeros new_cache [] 3 4 100 200
      later_reports new_cache-Valid new_cache_absent (omega arith) (omega arith) (omega arith)
      (omega arith) refl

parse-to_value_example :
    (v : Bytes) × (to_value user_only one_session 3 4 100 ≡ some v)
    × (parse user_only (1 ∷ []) v 200
        ≡ some (reported user_only (1 ∷ []) 3 4 100 200 one_session.session_data))
parse-to_value_example =
    parse-to_value user_only one_session (1 ∷ []) 3 4 100 200 refl (omega arith) (omega arith)
      (omega arith) (omega arith)

-- Two counters, the first at its largest, and one more byte.
abbrev full_counters : Bytes
full_counters =
    255 ∷ 255 ∷ 255 ∷ 255 ∷ 255 ∷ 255 ∷ 255 ∷ 255 ∷ 7 ∷ 0 ∷ 0 ∷ 0 ∷ 0 ∷ 0 ∷ 0 ∷ 0 ∷ 9 ∷ []

full_counters-AreBytes : AreBytes full_counters
full_counters-AreBytes = ground arith

add_rx_tx_lem_example :
    (e : Bytes) × (add_rx_tx 2 3 full_counters ≡ some e)
    × (parse_rx_tx e ≡ (
      ((parse_rx_tx full_counters).0 + 2) % 2 ^ 64,
      ((parse_rx_tx full_counters).1 + 3) % 2 ^ 64,
    ))
    × (drop 16 e ≡ drop 16 full_counters)
    × (length e ≡ length full_counters)
    × AreBytes e
add_rx_tx_lem_example = add_rx_tx_lem 2 3 full_counters (omega arith) full_counters-AreBytes
