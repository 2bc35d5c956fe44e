-- ===== src/Stream/Shared.antt =====
-- The stream numbers of all endpoints share one nibble: `set_max_streams_for_pipe` and
-- `get_max_streams_for_pipe` decode a pipe, and their callers pass an endpoint's number.
use fuzzusb.Base.{ℕ, ◌≤◌, ◌<◌, true, none, ◌≡◌, refl, ◌∙◌, arith}
use fuzzusb.Dummy.{Hcd, Urb}
use fuzzusb.Stream.{
  Pipe, IsLayout, get_max_streams_for_pipe, set_max_streams_for_pipe, validate_stream, ep_stream_en,
}

validate_none :
    (p : Pipe) (h : Hcd) (u : Urb)
    → ep_stream_en h u ≡ true
    → get_max_streams_for_pipe p h u.endpoint < u.stream_id
    → validate_stream p h u ≡ none
unfolding validate_stream
validate_none p h u on more = ground arith

module _ (p : Pipe) (layout : IsLayout p) where
  -- As a pipe, a small number is endpoint 0, to the device.
  number-endpoint : (n : ℕ) → n < 16 → p.endpoint n ≡ 0
  number-endpoint n h = layout.endpoint_bits n ∙ omega arith

  number-out : (n : ℕ) → n < 16 → p.out n ≡ true
  number-out n h = layout.out_bit n ∙ ground arith

  -- Whatever two endpoints `n` and `m` are, the number of streams that is set for `n` is the one that
  -- is read for `m`, from 1 to 16 streams; and the 0 streams of an endpoint that is freed read as 16.
  pub streams_shared :
      (h : Hcd) (n m k : ℕ)
      → n < 16
      → m < 16
      → 0 < k
      → k ≤ 16
      → (get_max_streams_for_pipe p (set_max_streams_for_pipe p h n k) m ≡ k)
        × (get_max_streams_for_pipe p (set_max_streams_for_pipe p h n 0) m ≡ 16)
  unfolding get_max_streams_for_pipe set_max_streams_for_pipe
  streams_shared h n m k hn hm k1 k16 =
      rw (number-endpoint n hn, number-endpoint m hm, number-out n hn, number-out m hm)
        (omega arith, omega arith)

  stream_en-set_max :
      (h : Hcd) (u : Urb) (n k : ℕ)
      → ep_stream_en (set_max_streams_for_pipe p h n k) u ≡ ep_stream_en h u
  unfolding set_max_streams_for_pipe ep_stream_en
  stream_en-set_max h u n k = refl

  -- An URB for a stream of an enabled endpoint runs into `BUG()` once fewer streams than its stream's
  -- number are allocated for any other endpoint.
  pub validate_stream-bug :
      (h : Hcd) (u : Urb) (n k : ℕ)
      → n < 16
      → u.endpoint < 16
      → 0 < k
      → k ≤ 16
      → k < u.stream_id
      → ep_stream_en h u ≡ true
      → validate_stream p (set_max_streams_for_pipe p h n k) u ≡ none
  validate_stream-bug h u n k hn hm k1 k16 more on =
      validate_none p (set_max_streams_for_pipe p h n k) u (stream_en-set_max h u n k ∙ on)
        (rw ((streams_shared h n u.endpoint k hn hm k1 k16).0) more)
