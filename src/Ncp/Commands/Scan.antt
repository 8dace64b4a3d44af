-- ===== src/Ncp/Commands/Scan.antt =====
-- `NetworkScan` reads back the networks that the dongle lists.
use zigbee_go_home.Base.{
  ℕ, zero, suc, ◌+◌, ◌*◌, ◌/◌, ◌%◌, ◌^◌, ◌<◌, ◌≡◌, refl, ap, ap₂, ◌∙◌, sym, not, ◌==◌, bit_and,
  Bool, true, false, List, [], ◌∷◌, ◌++◌, length, get_or, append_assoc, drop, take, take-append,
  drop-append, length-append, All, arith, map,
}
use zigbee_go_home.Base.Bits.{bit_and-one, bit_and_fifteen, bit_and_step}
use zigbee_go_home.Base.Bytes.{Bytes, le16, put_le16}
use zigbee_go_home.Base.Int.{pattern_of, signed}
use zigbee_go_home.Ncp.Frame.RoundTrip.{le16-put_le16}
use zigbee_go_home.Ncp.Commands.Zdo.{NetworkScanResult, scan_result, scan_results, networks_of}

abbrev flag : Bool → ℕ
flag true = 1
flag false = 0

-- How the dongle writes a network: the fields of the comment in `NetworkScan`, and a channel page.
unfoldable pub network_bytes : ℕ → NetworkScanResult → Bytes
network_bytes page n =
    n.ext_pan_id
    ++ (put_le16 n.pan_id
        ++ (n.update_id
            ∷ page
            ∷ n.channel
            ∷ (flag n.permit_join
                + flag n.router_cap * 2
                + flag n.ed_cap * 4
                + n.stack_profile * 16)
            ∷ n.lqi
            ∷ pattern_of 256 n.rssi
            ∷ []))

abbrev pub IsNetwork : NetworkScanResult → Type 0
IsNetwork n =
    (length n.ext_pan_id ≡ 8)
    × (n.pan_id < 2 ^ 16)
    × (n.stack_profile < 16)
    × (signed 128 (pattern_of 256 n.rssi) ≡ n.rssi)

get_or-behind :
    (n k : ℕ) (xs ys : Bytes) → length xs ≡ n → get_or (xs ++ ys) (n + k) 0 ≡ get_or ys k 0
get_or-behind zero k [] ys h = ap (λ i. get_or ys i 0) (omega arith)
get_or-behind zero k (x ∷ xs) ys h = absurd (omega (arith, h))
get_or-behind (suc n) k [] ys h = absurd (omega (arith, h))
get_or-behind (suc n) k (x ∷ xs) ys h =
    let e : suc n + k ≡ suc (n + k) = omega arith in
    rw e (get_or-behind n k xs ys (omega (arith, h)))

take-behind : (n : ℕ) (xs ys : Bytes) → length xs ≡ n → take n (xs ++ ys) ≡ xs
take-behind n xs ys h = rw (sym h) (take-append xs ys)

drop-behind : (n : ℕ) (xs ys : Bytes) → length xs ≡ n → drop n (xs ++ ys) ≡ ys
drop-behind n xs ys h = rw (sym h) (drop-append xs ys)

-- The flag byte is taken apart again.
bit_and-two : (f : ℕ) → bit_and f 2 ≡ f / 2 % 2 * 2
bit_and-two f = omega (arith, bit_and_step f 2, bit_and-one (f / 2))

bit_and-four : (f : ℕ) → bit_and f 4 ≡ f / 4 % 2 * 4
bit_and-four f = omega (arith, bit_and_step f 4, bit_and-two (f / 2))

flags_read :
    (a b c : Bool) (p : ℕ)
    → p < 16
    → (not (bit_and (flag a + flag b * 2 + flag c * 4 + p * 16) 1 == 0) ≡ a)
      × (not (bit_and (flag a + flag b * 2 + flag c * 4 + p * 16) 2 == 0) ≡ b)
      × (not (bit_and (flag a + flag b * 2 + flag c * 4 + p * 16) 4 == 0) ≡ c)
      × (bit_and ((flag a + flag b * 2 + flag c * 4 + p * 16) / 16) 0x0f ≡ p)
flags_read a b c p h = (
  ground (arith, bit_and-one (flag a + flag b * 2 + flag c * 4 + p * 16)),
  ground (arith, bit_and-two (flag a + flag b * 2 + flag c * 4 + p * 16)),
  ground (arith, bit_and-four (flag a + flag b * 2 + flag c * 4 + p * 16)),
  ground (arith, bit_and_fifteen ((flag a + flag b * 2 + flag c * 4 + p * 16) / 16)),
)

-- The fields of a descriptor, of whose bytes the first eight are known.
scan_result_fields :
    (e ys : Bytes)
    → length e ≡ 8
    → scan_result (e ++ ys) ≡ record {
      ext_pan_id = e;
      pan_id = le16 (get_or ys 0 0) (get_or ys 1 0);
      update_id = get_or ys 2 0;
      channel = get_or ys 4 0;
      permit_join = not (bit_and (get_or ys 5 0) 0x01 == 0);
      router_cap = not (bit_and (get_or ys 5 0) 0x02 == 0);
      ed_cap = not (bit_and (get_or ys 5 0) 0x04 == 0);
      stack_profile = bit_and (get_or ys 5 0 / 2 ^ 4) 0x0f;
      lqi = get_or ys 6 0;
      rssi = signed 128 (get_or ys 7 0);
    }
unfolding scan_result
scan_result_fields e ys h = rw (
  take-behind 8 e ys h,
  get_or-behind 8 0 e ys h,
  get_or-behind 8 1 e ys h,
  get_or-behind 8 2 e ys h,
  get_or-behind 8 4 e ys h,
  get_or-behind 8 5 e ys h,
  get_or-behind 8 6 e ys h,
  get_or-behind 8 7 e ys h,
)

scan_result-network_bytes :
    (page : ℕ) (n : NetworkScanResult) → IsNetwork n → scan_result (network_bytes page n) ≡ n
unfolding network_bytes
scan_result-network_bytes page n (h, hp, hs, hr) =
    let (f1, f2, f4, f16) = flags_read n.permit_join n.router_cap n.ed_cap n.stack_profile hs in
    scan_result_fields n.ext_pan_id _ h ∙ rw (le16-put_le16 n.pan_id hp, f1, f2, f4, f16, hr) refl

network_bytes-length :
    (page : ℕ) (n : NetworkScanResult) → IsNetwork n → length (network_bytes page n) ≡ 16
unfolding network_bytes
network_bytes-length page n (h, hp, hs, hr) = rw (length-append n.ext_pan_id _, h) refl

-- The list of an answer, each network with a channel page.
unfoldable pub networks_bytes : List (ℕ × NetworkScanResult) → Bytes
networks_bytes [] = []
networks_bytes (p ∷ ps) = network_bytes p.0 p.1 ++ networks_bytes ps

-- One turn of the loop, on a descriptor that is there.
scan_results_step :
    (n : ℕ) (d rest : Bytes)
    → length d ≡ 16
    → scan_results (suc n) (d ++ rest) ≡ scan_result d ∷ scan_results n rest
unfolding scan_results
scan_results_step n d rest h =
    rw (take-behind 16 d rest h, drop-behind 16 d rest h, length-append d rest, h) (ground arith)

scan_results-networks_bytes :
    (ps : List (ℕ × NetworkScanResult)) (more : ℕ) (cut : Bytes)
    → All (λ p. IsNetwork p.1) ps
    → length cut < 16
    → scan_results (length ps + more) (networks_bytes ps ++ cut) ≡ map (λ p. p.1) ps
unfolding scan_results networks_bytes
scan_results-networks_bytes [] zero cut h l = refl
scan_results-networks_bytes [] (suc more) cut h l = ground arith
scan_results-networks_bytes (p ∷ ps) more cut (hn, hs) l =
    let one_more : suc (length ps) + more ≡ suc (length ps + more) = omega arith in
    ap (λ n. scan_results n (networks_bytes (p ∷ ps) ++ cut)) one_more
    ∙ ap (scan_results (suc (length ps + more)))
        (append_assoc (network_bytes p.0 p.1) (networks_bytes ps) cut)
    ∙ scan_results_step (length ps + more) _ _ (network_bytes-length p.0 p.1 hn)
    ∙ ap₂ (λ n ns. n ∷ ns) (scan_result-network_bytes p.0 p.1 hn)
        (scan_results-networks_bytes ps more cut hs l)

-- The networks that an answer to `NetworkScan` lists are all read back, each whole; when the count
-- names `more` than there are, or a last descriptor is cut, those that are there are read.
pub networks_of-networks_bytes :
    (ps : List (ℕ × NetworkScanResult)) (more : ℕ) (cut : Bytes)
    → All (λ p. IsNetwork p.1) ps
    → length cut < 16
    → networks_of ((length ps + more) ∷ (networks_bytes ps ++ cut)) ≡ map (λ p. p.1) ps
unfolding networks_of
networks_of-networks_bytes = scan_results-networks_bytes
