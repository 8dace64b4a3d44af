-- ===== src/Ncp/Commands/Descriptors.antt =====
-- `SimpleDescriptor` reads back what `buildSimpleDescPayload` writes, and never more clusters than
-- the counts of the answer name or its bytes hold.
use zigbee_go_home.Base.{
  ℕ, zero, suc, ◌-◌, ◌*◌, ◌/◌, ◌%◌, ◌^◌, ◌<◌, ◌≤◌, min, ◌≡◌, refl, List, [], ◌∷◌, ◌++◌, length,
  get_or, length-drop, append_assoc, drop, All, arith,
}
use zigbee_go_home.Base.Bytes.{Bytes}
use zigbee_go_home.Ncp.Frame.RoundTrip.{le16-put_le16}
use zigbee_go_home.Ncp.Commands.{done, cluster_bytes, build_simple_desc_payload}
use zigbee_go_home.Ncp.Commands.Zdo.{SimpleDescriptor, read_clusters, descriptor_of}

read_clusters-cluster_bytes :
    (cs : List ℕ) (rest : Bytes)
    → All (λ c. c < 2 ^ 16) cs
    → read_clusters (length cs) (cluster_bytes cs ++ rest) ≡ (cs, rest)
unfolding read_clusters cluster_bytes
read_clusters-cluster_bytes [] rest h = refl
read_clusters-cluster_bytes (c ∷ cs) rest (hc, hs) =
    ground (arith, le16-put_le16 c hc, read_clusters-cluster_bytes cs rest hs)

-- The descriptor that `buildSimpleDescPayload` writes is read back whole by `SimpleDescriptor`,
-- whatever follows it, if its ids are uint16 and it has fewer than 256 clusters of each kind.
pub descriptor_of-build_simple_desc :
    (ep profile_id device_id version : ℕ) (ins outs : List ℕ) (rest : Bytes)
    → profile_id < 2 ^ 16
    → device_id < 2 ^ 16
    → (length ins < 256) × All (λ c. c < 2 ^ 16) ins
    → (length outs < 256) × All (λ c. c < 2 ^ 16) outs
    → descriptor_of (build_simple_desc_payload ep profile_id device_id version ins outs ++ rest)
      ≡ done (record {
        endpoint = ep;
        profile_id = profile_id;
        device_id = device_id;
        in_clusters = ins;
        out_clusters = outs;
      })
unfolding descriptor_of build_simple_desc_payload
descriptor_of-build_simple_desc ep profile_id device_id version ins outs rest hp hd (li, hi)
      (lo, ho) =
    let ins_read = read_clusters-cluster_bytes ins (cluster_bytes outs ++ rest) hi in
    let outs_read = read_clusters-cluster_bytes outs rest ho in
    let joined = append_assoc (cluster_bytes ins) (cluster_bytes outs) rest in
    let ins_count : length ins % 256 ≡ length ins = omega arith in
    let outs_count : length outs % 256 ≡ length outs = omega arith in
    rw
      (
        joined,
        ins_count,
        ins_read,
        outs_count,
        outs_read,
        le16-put_le16 profile_id hp,
        le16-put_le16 device_id hd,
      )
      (ground arith)

read_clusters-length :
    (n : ℕ) (rest : Bytes)
    → (length (read_clusters n rest).0 ≡ min n (length rest / 2))
      × (length (read_clusters n rest).1 ≡ length rest - 2 * min n (length rest / 2))
unfolding read_clusters
read_clusters-length zero rest = (omega arith, omega arith)
read_clusters-length (suc n) [] = (omega arith, omega arith)
read_clusters-length (suc n) (lo ∷ []) = (omega arith, omega arith)
read_clusters-length (suc n) (lo ∷ hi ∷ rest) =
    let (a, b) = read_clusters-length n rest in (omega arith, omega arith)

-- A descriptor is given for eight bytes or more, and its clusters are counted exactly: those of the
-- input count as far as the bytes behind the header last, then those of the output count as far as
-- the remaining bytes last. No error tells that clusters are missing.
pub descriptor_of_counts :
    (payload : Bytes) (sd : SimpleDescriptor)
    → descriptor_of payload ≡ done sd
    → (8 ≤ length payload)
      × (length sd.in_clusters ≡ min (get_or payload 6 0) ((length payload - 8) / 2))
      × (length sd.out_clusters
          ≡ min (get_or payload 7 0) ((length payload - 8) / 2 - length sd.in_clusters))
unfolding descriptor_of
descriptor_of_counts payload sd h =
    let ins = read_clusters (get_or payload 6 0) (drop 8 payload) in
    ground (
      arith,
      read_clusters-length (get_or payload 6 0) (drop 8 payload),
      read_clusters-length (get_or payload 7 0) ins.1,
      length-drop 8 payload,
    )
