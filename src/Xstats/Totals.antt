-- ===== src/Xstats/Totals.antt =====
-- Reports of one session, one after the other, over the cache: the totals that a flush reads.
use common_lib_go.Prelude.{
  ℕ, ◌+◌, ◌%◌, ◌^◌, ◌<◌, ◌≡◌, refl, ap, ◌∙◌, Option, none, some, List, [], ◌∷◌, length, arith,
}
use common_lib_go.Xcache.{Bytes, Items, ok, err, no_data, chunk_size}
use common_lib_go.Xcache.Invariant.{Written, Valid}
use common_lib_go.Xcache.Cache.{Cache, bucket_of, get}
use common_lib_go.Xstats.RoundTrip.{reported, parse-layout}
use common_lib_go.Xstats.Service.{SessionData, Codecs, parse, report_stats}
use common_lib_go.Xstats.Reports.{data_of, Holding, report_first, report_next}

-- The totals after some reports, each with its two counts and its time.
abbrev pub total_rx : ℕ → List (ℕ × ℕ × ℕ) → ℕ
total_rx rx [] = rx
total_rx rx ((drx, _, _) ∷ rs) = total_rx ((rx + drx) % 2 ^ 64) rs

abbrev pub total_tx : ℕ → List (ℕ × ℕ × ℕ) → ℕ
total_tx tx [] = tx
total_tx tx ((_, dtx, _) ∷ rs) = total_tx ((tx + dtx) % 2 ^ 64) rs

module _ (codecs : Codecs) (on_data : Bytes → SessionData) (id : Bytes) where
  module _ (sum64 : Bytes → ℕ) (blank : ℕ → ℕ) where
    -- Reports of the session, one after the other; `none` is a panic.
    unfoldable pub report_all : Cache → List (ℕ × ℕ × ℕ) → Option Cache
    unfolding report_stats
    report_all c [] = some c
    report_all c ((drx, dtx, now_nano) ∷ rs) =
        elim (report_stats codecs on_data id drx dtx now_nano sum64 blank c) [
          | none ↦ none
          | some (c', _) ↦ report_all c' rs
        ]

    report_step :
        (c c' : Cache) (drx dtx now_nano : ℕ) (evicted : Option Items) (rs : List (ℕ × ℕ × ℕ))
        → report_stats codecs on_data id drx dtx now_nano sum64 blank c ≡ some (c', evicted)
        → report_all c ((drx, dtx, now_nano) ∷ rs) ≡ report_all c' rs
    unfolding report_all
    report_step c c' drx dtx now_nano evicted rs e = ground (arith, e)

    reports_held :
        (c : Cache) (rx tx created : ℕ) (rs : List (ℕ × ℕ × ℕ))
        → Holding codecs on_data id sum64 blank c rx tx created
        → (c' : Cache) × (report_all c rs ≡ some c')
          × Holding codecs on_data id sum64 blank c' (total_rx rx rs) (total_tx tx rs) created
    unfolding report_all
    reports_held c rx tx created [] h = (c, refl, h)
    reports_held c rx tx created ((drx, dtx, now_nano) ∷ rs) h =
        let (c1, evicted, e, h1) =
          report_next codecs on_data id sum64 blank c rx tx created drx dtx now_nano h in
        let (c2, f, h2) =
          reports_held c1 ((rx + drx) % 2 ^ 64) ((tx + dtx) % 2 ^ 64) created rs h1 in
        (c2, report_step c c1 drx dtx now_nano evicted rs e ∙ f, h2)

    -- Over any reports of one session, of which the first finds no data in a well-formed bucket and has
    -- encoded data that can be stored, none panics. The value that the cache then has for the session is
    -- parsed to a report with the totals of both counters, modulo 2 ^ 64, the time of the first report, and
    -- the data of the session, if the JSON library reads them back as they were.
    pub parse-report_all :
        (c : Cache) (g : Written) (drx dtx created now_nano : ℕ) (rs : List (ℕ × ℕ × ℕ))
        → Valid (c.buckets (bucket_of sum64 id)) g
        → get sum64 c id ≡ err no_data
        → length id + length (data_of codecs on_data id) + 30 < chunk_size
        → drx < 2 ^ 64
        → dtx < 2 ^ 64
        → created < 2 ^ 64
        → codecs.unmarshal (data_of codecs on_data id) ≡ on_data id
        → (c' : Cache) × (x : Bytes) × (report_all c ((drx, dtx, created) ∷ rs) ≡ some c')
          × (get sum64 c' id ≡ ok x)
          × (parse codecs id x now_nano
              ≡ some (
                  reported codecs id
                    (total_rx drx rs)
                    (total_tx dtx rs)
                    created
                    now_nano
                    (on_data id)))
    parse-report_all c g drx dtx created now_nano rs w absent small h1 h2 h3 json =
        let (c1, evicted, e, first) =
          report_first codecs on_data id sum64 blank c g drx dtx created w absent
            (omega arith, omega arith, omega arith) h1 h2 in
        let (c2, f, all) = reports_held c1 drx dtx created rs first in
        (
          c2,
          _,
          report_step c c1 drx dtx created evicted rs e ∙ f,
          all.found,
          parse-layout codecs id (data_of codecs on_data id) (total_rx drx rs) (total_tx dtx rs)
                created now_nano all.small_rx all.small_tx h3 (omega (arith, small))
              ∙ ap
                  (λ d.
                    some
                      (reported codecs id (total_rx drx rs) (total_tx dtx rs) created now_nano d))
                  json,
        )
