-- ===== src/Xstats/RoundTrip.antt =====
-- `toValue` and `parse`: the layout of a value, and what is read back from it.
use common_lib_go.Prelude.{
  ℕ, ◌+◌, ◌-◌, ◌%◌, ◌^◌, ◌≤◌, ◌<◌, ◌≡◌, refl, ap, ◌∙◌, some, [], ◌∷◌, ◌++◌, length, take, drop,
  replicate, arith,
}
use common_lib_go.Xcache.{Bytes}
use common_lib_go.Xstats.{le_bytes, parse_uint64, set_uint64, parse_uint16, set_uint16, parse_rx_tx}
use common_lib_go.Xstats.Codec.{counters, rx_tx-counters, parse_rx_tx-counters, le_value-le_bytes}
use common_lib_go.Xstats.Service.{SessionData, Session, Report, part, Codecs, parse, to_value}

take_all : (d : Bytes) → take (length d) d ≡ d
take_all [] = refl
take_all (b ∷ bs) = ap (λ rest. b ∷ rest) (take_all bs)

part_fits : (i n : ℕ) (v : Bytes) → i + n ≤ length v → part i n v ≡ some (take n (drop i v))
part_fits i n v h = ground (arith, h)

-- Counters, time, length, data.
abbrev pub layout : ℕ → ℕ → ℕ → Bytes → Bytes
layout drx dtx now_nano data' =
    counters drx dtx (le_bytes 8 now_nano ++ (le_bytes 2 (length data' % 2 ^ 16) ++ data'))

module _ (codecs : Codecs) where
  pub to_value-layout :
      (s : Session) (drx dtx now_nano : ℕ)
      → to_value codecs s drx dtx now_nano
        ≡ some (layout drx dtx now_nano (codecs.marshal s.session_data))
  unfolding to_value set_uint64 set_uint16
  to_value-layout s drx dtx now_nano =
      ground (arith, rx_tx-counters drx dtx (replicate 16 0) (omega arith))

  -- What a report reads from a value with these counters.
  abbrev pub reported : Bytes → ℕ → ℕ → ℕ → ℕ → SessionData → Report
  reported k drx dtx created now_nano d = record {
    session = record { session_id = codecs.uuid_text k; session_data = d };
    created_nano = created;
    delta_rx = drx;
    delta_tx = dtx;
    delta_t_nano = (now_nano + 2 ^ 64 - created) % 2 ^ 64;
  }

  parse_parts :
      (k v a b c d : Bytes) (now_nano : ℕ)
      → part 0 16 v ≡ some a
      → part 16 8 v ≡ some b
      → part 24 2 v ≡ some c
      → part 26 (parse_uint16 c) v ≡ some d
      → parse codecs k v now_nano
        ≡ some (
            reported k
              (parse_rx_tx a).0
              (parse_rx_tx a).1
              (parse_uint64 b)
              now_nano
              (codecs.unmarshal d))
  unfolding parse
  parse_parts k v a b c d now_nano ea eb ec ed = ground (arith, ea, eb, ec, ed)

  parse_uint64_bytes : (v : ℕ) → v < 2 ^ 64 → parse_uint64 (le_bytes 8 v) ≡ v
  unfolding parse_uint64
  parse_uint64_bytes v h = le_value-le_bytes 8 v h

  parse_uint16_bytes : (v : ℕ) → v < 2 ^ 16 → parse_uint16 (le_bytes 2 v) ≡ v
  unfolding parse_uint16
  parse_uint16_bytes v h = le_value-le_bytes 2 v h

  pub parse-layout :
      (k data' : Bytes) (drx dtx created now_nano : ℕ)
      → drx < 2 ^ 64
      → dtx < 2 ^ 64
      → created < 2 ^ 64
      → length data' < 2 ^ 16
      → parse codecs k (layout drx dtx created data') now_nano
        ≡ some (reported k drx dtx created now_nano (codecs.unmarshal data'))
  parse-layout k data' drx dtx created now_nano h1 h2 h3 h4 =
      let v = layout drx dtx created data' in
      let n = parse_uint16 (le_bytes 2 (length data' % 2 ^ 16)) in
      let size : n ≡ length data' =
        parse_uint16_bytes (length data' % 2 ^ 16) (omega arith) ∙ omega (arith, h4) in
      let last : part 26 n v ≡ some data' =
        part_fits 26 n v (omega (arith, size))
        ∙ ap (λ (m : ℕ). some (take m data')) size
        ∙ ap (λ (d : Bytes). some d) (take_all data') in
      let read = parse_rx_tx-counters drx dtx [] h1 h2 in
      parse_parts k v (counters drx dtx []) (le_bytes 8 created)
        (le_bytes 2 (length data' % 2 ^ 16)) data' now_nano (part_fits 0 16 v (omega arith))
        (part_fits 16 8 v (omega arith)) (part_fits 24 2 v (omega arith)) last
      ∙ ap
          (λ (p : ℕ × ℕ). some (
            reported k p.0 p.1 (parse_uint64 (le_bytes 8 created)) now_nano
              (codecs.unmarshal data')))
          read
      ∙ ap (λ (t : ℕ). some (reported k drx dtx t now_nano (codecs.unmarshal data')))
          (parse_uint64_bytes created h3)

  -- A session whose data the JSON library reads back as they were, and whose encoded data are shorter
  -- than 2 ^ 16 bytes, is read back from its value, with the counters and the time that were written.
  pub parse-to_value :
      (s : Session) (k : Bytes) (drx dtx created now_nano : ℕ)
      → codecs.unmarshal (codecs.marshal s.session_data) ≡ s.session_data
      → length (codecs.marshal s.session_data) < 2 ^ 16
      → drx < 2 ^ 64
      → dtx < 2 ^ 64
      → created < 2 ^ 64
      → (v : Bytes) × (to_value codecs s drx dtx created ≡ some v)
        × (parse codecs k v now_nano ≡ some (reported k drx dtx created now_nano s.session_data))
  parse-to_value s k drx dtx created now_nano json short h1 h2 h3 = (
    layout drx dtx created (codecs.marshal s.session_data),
    to_value-layout s drx dtx created,
    parse-layout k (codecs.marshal s.session_data) drx dtx created now_nano h1 h2 h3 short
        ∙ ap (λ d. some (reported k drx dtx created now_nano d)) json,
  )
