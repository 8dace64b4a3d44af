-- ===== src/Ncp/Examples/Stream.antt =====
-- A response behind noise on the line, up to the request that waits for it.
use zigbee_go_home.Base.{
  ℕ, suc, ◌<◌, ◌≡◌, refl, true, false, [], ◌∷◌, ◌++◌, map, length, All, none, some, ok, arith,
}
use zigbee_go_home.Ncp.Frame.{ll_is_ack, data_flags, decode_hl}
use zigbee_go_home.Ncp.Frame.RoundTrip.{ll_of}
use zigbee_go_home.Ncp.Transport.{fresh, Ncp, begin_request, receive}
use zigbee_go_home.Ncp.Transport.Routing.{IsSafe}
use zigbee_go_home.Ncp.Transport.Loop.{run_frames, is_response, IsOther}
use zigbee_go_home.Ncp.Transport.Stream.{
  Message, IsMessage, stream_of, read_loop, read_loop-stream_of, read_loop_routed,
}

abbrev answer : ℕ → Message
answer tsn = record {
  noise = 0xad ∷ 0xde ∷ [];
  seq = 1;
  hl_data = 0x00 ∷ 0x01 ∷ 0x02 ∷ 0x00 ∷ tsn ∷ 0x00 ∷ 0x00 ∷ [];
  says = record {
    ll = ll_of 14 (data_flags 1);
    hl = record {
      version = 0;
      packet_type = 1;
      call_id = 2;
      tsn = tsn;
      status_cat = 0;
      status_code = 0;
    };
    payload = [];
  };
}

answer-IsMessage : (tsn : ℕ) → tsn < 256 → IsMessage (answer tsn)
unfolding decode_hl
answer-IsMessage tsn h = record {
  clean = ((λ e. omega (arith, e.0)), tt);
  seq_fits = omega arith;
  fits = omega arith;
  in_bytes = ground arith;
  meant = refl;
}

abbrev quiet : Ncp
quiet = record {
  hl_tsn = 6;
  zcl_seq = 0;
  ll_pkt_seq_now = 0;
  hl_pending = record { entry = λ seq. none; chan = λ c. fresh; next = 0 };
  zcl_pending = record { entry = λ seq. none; chan = λ c. fresh; next = 0 };
  acks = [];
  reset_ind = false;
  written = [];
  events = [];
  handlers = record {
    on_joined = false;
    on_left = false;
    on_announce = false;
    on_report = false;
    on_cluster_cmd = false;
    on_nwk_addr_update = false;
    on_reset = false;
  };
}

quiet-IsSafe : IsSafe quiet
quiet-IsSafe = (
  record { made = λ s c e. cc; is_open = λ s c e. refl; own = λ s t c e e'. cc },
  record { made = λ s c e. cc; is_open = λ s c e. refl; own = λ s t c e e'. cc },
)

answers-IsMessage : All IsMessage ((answer 3 ∷ []) ++ (answer 7 ∷ []))
answers-IsMessage = (answer-IsMessage 3 (omega arith), (answer-IsMessage 7 (omega arith), tt))

read_loop-stream_of_example :
    read_loop 3 (stream_of (answer 3 ∷ answer 7 ∷ [])) quiet
    ≡ run_frames (map (λ m. m.says) (answer 3 ∷ answer 7 ∷ [])) quiet
read_loop-stream_of_example =
    read_loop-stream_of 3 (answer 3 ∷ answer 7 ∷ []) quiet (omega arith) answers-IsMessage

before-IsOther : All (λ m. IsOther (begin_request quiet).1 m.says) (answer 3 ∷ [])
unfolding begin_request ll_is_ack data_flags
before-IsOther = (refl, tt)

own_answer : is_response (answer 7).says ≡ true
unfolding ll_is_ack data_flags
own_answer = refl

own_tsn : (answer 7).says.hl.tsn ≡ (begin_request quiet).1
unfolding begin_request
own_tsn = refl

read_loop_routed_example :
    (m : Ncp) × (read_loop
        (suc (length ((answer 3 ∷ []) ++ (answer 7 ∷ []))))
        (stream_of ((answer 3 ∷ []) ++ (answer 7 ∷ [])))
        (begin_request quiet).0
      ≡ ok m)
    × IsSafe m
    × (receive (m.hl_pending.chan 0) ≡ some (some (answer 7).says))
read_loop_routed_example =
    read_loop_routed quiet (answer 7) (answer 3 ∷ []) [] quiet-IsSafe answers-IsMessage
      before-IsOther own_answer own_tsn
