-- ===== src/Router/Session.antt =====
-- The session with the VNS server, from sr_vns_comm.c and sr_main.c: messages are read from a
-- socket and handed on. The calls of the operating system, the file of the key and SHA-1 are
-- parameters. Logs and prints are left out.
pub mod Reading
pub mod Checked
pub mod Ended
mod Examples
use computer_network.Prelude.{
  ℕ, zero, suc, ◌+◌, ◌-◌, ◌/◌, ◌%◌, ◌^◌, Bool, true, false, not, ◌&&◌, ◌||◌, List, [], ◌∷◌, ◌++◌,
  map, Option, none, some, length, take, drop, replicate, ltb, leb, ◌==◌, if◌then◌else◌,
}
use computer_network.Prelude.Buffer.{le_bytes, load32, slice}
use computer_network.Prelude.Text.{c_string}
use computer_network.Prelude.Result.{
  Result, ok, fault, guard, ◌>>=◌, ◌>>◌, no_rounds, out_of_bounds,
}
use computer_network.Router.Instance.{Bytes, Interface, Route, Instance}
use computer_network.Router.Interfaces.{same_name, find_name}
use computer_network.Router.Hardware.{HwEntry, sr_handle_hwinfo}
use computer_network.Router.Send.{sr_arp_req_not_for_us}
use computer_network.Router.Forward.{sr_handlepacket}
use computer_network.Tcp.Segment.{htonl}

-- The types of messages.
abbrev pub vnsopen : ℕ
vnsopen = 1

abbrev pub vnsclose : ℕ
vnsclose = 2

abbrev pub vnspacket : ℕ
vnspacket = 4

abbrev pub vnsbanner : ℕ
vnsbanner = 8

abbrev pub vnshwinfo : ℕ
vnshwinfo = 16

abbrev pub vns_rtable : ℕ
vns_rtable = 32

abbrev pub vns_open_template : ℕ
vns_open_template = 64

abbrev pub vns_auth_request : ℕ
vns_auth_request = 128

abbrev pub vns_auth_reply : ℕ
vns_auth_reply = 256

abbrev pub vns_auth_status : ℕ
vns_auth_status = 512

-- IDSIZE
abbrev pub idsize : ℕ
idsize = 32

-- What recv and read return: -1 with EINTR, -1 with another errno, or bytes, none of them at the
-- end of the connection.
pub data Recv : Type 0 where
  interrupted failed : Recv
  received : Bytes → Recv

-- The server and the files: recv and read on the socket, send, whether all bytes went out, fopen
-- and fwrite of a file, the 64 bytes that fgets leaves of the file auth_key, and the five words of
-- SHA-1.
pub record Server (W : Type 0) : Type 0 where
  pub recv : W → ℕ → Recv × W
  pub send : W → Bytes → Bool × W
  pub save : W → Bytes → Bytes → Bool × W
  pub auth_key : W → Option Bytes
  pub sha1 : Bytes → Option (List ℕ)

-- What sr_read_from_server_expect returns: 1, 0 and -1.
pub data Outcome : Type 0 where
  go_on closed error : Outcome

-- What a call returns and leaves.
pub record Step (W : Type 0) : Type 0 where
  pub outcome : Outcome
  pub sr : Instance
  pub world : W

-- sr->user, sr->host, sr->template and sr->topo_id
pub record Session : Type 0 where
  pub user : Bytes
  pub host : Bytes
  pub template : Bytes
  pub topo_id : ℕ

-- The inner walk of sr_verify_routing_table.
abbrev pub has_interface : List Interface → Route → Bool
has_interface if_list r = elim (find_name r.interface if_list) [ none ↦ false | some i ↦ true ]

-- The outer walk.
unfoldable pub count_missing : List Interface → List Route → ℕ
count_missing if_list [] = 0
count_missing if_list (r ∷ rs) =
    if has_interface if_list r then count_missing if_list rs else count_missing if_list rs + 1

unfoldable pub sr_verify_routing_table : Instance → ℕ
sr_verify_routing_table sr = elim sr.if_list [
  | [] ↦ 999
  | i ∷ is ↦ elim sr.routing_table [ [] ↦ 999 | r ∷ rs ↦ count_missing (i ∷ is) (r ∷ rs) ]
]

-- strncpy into a field of `n` bytes.
unfoldable pub strncpy : ℕ → Bytes → Bytes
strncpy n s = take n (c_string s ++ replicate n 0)

-- A 32-bit field in network byte order.
abbrev pub net32 : ℕ → Bytes
net32 x = le_bytes 4 (htonl x)

-- The message that asks for a topology, or for an instance of a template.
unfoldable pub open_message : Session → Bytes
open_message c =
    if ltb 0 (length (c_string c.template))
    then net32 70 ++ net32 vns_open_template ++ strncpy 30 c.template ++ strncpy idsize c.host
    else net32 108
      ++ net32 vnsopen
      ++ (c.topo_id / 256 % 256 ∷ c.topo_id % 256 ∷ 0 ∷ 0 ∷ [])
      ++ strncpy idsize c.host
      ++ strncpy idsize c.user
      ++ replicate idsize 0

-- The entries of a VNSHWINFO message, as many as fit in this number of bytes.
unfoldable pub hw_entries : ℕ → Bytes → List HwEntry
hw_entries zero rest = []
hw_entries (suc n) rest =
    record { key = htonl (load32 0 rest); value = slice 4 32 rest } ∷ hw_entries n (drop 36 rest)

-- The words of the digest, in network byte order.
unfoldable pub digest_bytes : List ℕ → Bytes
digest_bytes [] = []
digest_bytes (d ∷ ds) = net32 d ++ digest_bytes ds

-- The message that sr_handle_auth_request sends.
unfoldable pub auth_reply : Bytes → List ℕ → Bytes
auth_reply user digest =
    net32 (12 + length user + 20)
    ++ net32 vns_auth_reply
    ++ net32 (length user)
    ++ user
    ++ digest_bytes digest

module _ {W : Type 0} (s : Server W) where
  -- A round of the loops that read `left` more bytes; a round that gets 0 bytes is one more.
  unfoldable pub read_round :
      (ℕ → W → Result (Option Bytes × W)) → ℕ → Recv → W → Result (Option Bytes × W)
  read_round more left interrupted w = more left w
  read_round more left failed w = ok (none, w)
  read_round more left (received bytes) w = do
    guard (leb (length bytes) left) out_of_bounds
    rest ← more (left - length bytes) w
    ok (elim rest.0 [ none ↦ none | some later ↦ some (bytes ++ later) ], rest.1)

  unfoldable pub read_loop : ℕ → ℕ → W → Result (Option Bytes × W)
  read_loop fuel zero w = ok (some [], w)
  read_loop zero (suc left) w = fault no_rounds
  read_loop (suc fuel) (suc left) w =
      let step = s.recv w (suc left) in
      read_round (λ n w'. read_loop fuel n w') (suc left) step.0 step.1

  -- sr_handle_rtable; the name of the file is "rtable." and that of the host.
  unfoldable pub sr_handle_rtable : Bytes → W → Result (Bool × W)
  sr_handle_rtable buf w =
      let name = c_string (drop 8 buf) in
      do
        guard (leb (length name) idsize) out_of_bounds
        guard (leb (8 + idsize) (length buf)) out_of_bounds
        ok (s.save w (114 ∷ 116 ∷ 97 ∷ 98 ∷ 108 ∷ 101 ∷ 46 ∷ name) (drop (8 + idsize) buf))

  -- sr_handle_auth_request
  unfoldable pub sr_handle_auth_request : Session → Bytes → W → Bool × W
  sr_handle_auth_request c buf w = elim (s.auth_key w) [
    | none ↦ (false, w)
    | some key ↦ elim (s.sha1 (drop 8 buf ++ key)) [
      | none ↦ (false, w)
      | some digest ↦ s.send w (auth_reply (c_string c.user) digest)
    ]
  ]

  -- sr_handle_auth_status
  unfoldable pub sr_handle_auth_status : Bytes → Result Bool
  sr_handle_auth_status buf = elim (drop 8 buf) [
    | [] ↦ fault out_of_bounds
    | auth_ok ∷ msg ↦ ok (not (auth_ok == 0))
  ]

  module _ (junk_frame : Bytes) (junk : Interface) (now fuel : ℕ) (c : Session) where
    -- The case VNSPACKET; the name of the interface stands behind the type.
    unfoldable pub handle_packet : Bytes → Instance → Result Instance
    handle_packet buf sr = do
      guard (leb 24 (length buf)) out_of_bounds
      let packet = drop 24 buf in
          let name = c_string (drop 8 buf) in
          (do
            other ← sr_arp_req_not_for_us sr packet name
            if other then ok sr else sr_handlepacket junk_frame now fuel sr packet name)

    -- The case VNSHWINFO.
    unfoldable pub handle_hwinfo : Bytes → Instance → W → Result (Step W)
    handle_hwinfo buf sr w = do
      sr' ← sr_handle_hwinfo junk (hw_entries ((length buf - 8) / 36) (drop 8 buf)) sr
      ok (record {
        outcome = if sr_verify_routing_table sr' == 0 then go_on else error;
        sr = sr';
        world = w;
      })

    -- 1 where a handler returns something other than 0, and else -1.
    abbrev outcome_of : Bool → Outcome
    outcome_of good = if good then go_on else error

    -- The switch on the command.
    unfoldable pub handle_command : ℕ → Bytes → Instance → W → Result (Step W)
    handle_command command buf sr w =
        if command == vnspacket
        then (do sr' ← handle_packet buf sr; ok (record { outcome = go_on; sr = sr'; world = w }))
        else if command == vnsclose
        then ok (record { outcome = closed; sr = sr; world = w })
        else if command == vnshwinfo
        then handle_hwinfo buf sr w
        else if command == vns_rtable
        then (do
          saved ← sr_handle_rtable buf w
          ok (record { outcome = outcome_of saved.0; sr = sr; world = saved.1 }))
        else if command == vns_auth_request
        then (let sent = sr_handle_auth_request c buf w in
            ok (record { outcome = outcome_of sent.0; sr = sr; world = sent.1 }))
        else if command == vns_auth_status
        then (do
          good ← sr_handle_auth_status buf
          ok (record { outcome = outcome_of good; sr = sr; world = w }))
        else ok (record { outcome = go_on; sr = sr; world = w })

    -- A message that has been read.
    unfoldable pub handle_message : ℕ → Bytes → Instance → W → Result (Step W)
    handle_message expected_cmd buf sr w = do
      guard (leb 8 (length buf)) out_of_bounds
      let command = htonl (load32 4 buf) in
          if not (expected_cmd == 0) && not (command == expected_cmd) && not (command == vnsclose)
          then ok (record { outcome = error; sr = sr; world = w })
          else handle_command command buf sr w

    -- sr_read_from_server_expect, with this many calls of recv and read for each of its loops. The
    -- length is an int, so that a negative one is a large number here.
    unfoldable pub sr_read_from_server_expect : ℕ → ℕ → Instance → W → Result (Step W)
    sr_read_from_server_expect rounds expected_cmd sr w = do
      head ← read_loop rounds 4 w
      elim head.0 [
        | none ↦ ok (record { outcome = error; sr = sr; world = head.1 })
        | some bytes ↦
            let len = htonl (load32 0 bytes) in
            elim (ltb 10000 len) [
              | true ↦ ok (record { outcome = error; sr = sr; world = head.1 })
              | false ↦ do
                guard (leb 4 len) out_of_bounds
                body ← read_loop rounds (len - 4) head.1
                elim body.0 [
                  | none ↦ ok (record { outcome = error; sr = sr; world = body.1 })
                  | some rest ↦ handle_message expected_cmd (bytes ++ rest) sr body.1
                ]
            ]
      ]

    -- The loop of main.
    unfoldable pub main_loop : ℕ → ℕ → Instance → W → Result (Step W)
    main_loop zero rounds sr w = fault no_rounds
    main_loop (suc messages) rounds sr w = do
      step ← sr_read_from_server_expect rounds 0 sr w
      elim step.outcome [
        | go_on ↦ main_loop messages rounds step.sr step.world
        | closed ↦ ok step
        | error ↦ ok step
      ]

    abbrev goes_on : Outcome → Bool
    goes_on go_on = true
    goes_on closed = false
    goes_on error = false

    -- sr_connect_to_server, once the socket is connected; false for -1.
    unfoldable pub sr_connect_to_server : ℕ → Instance → W → Result (Bool × W)
    sr_connect_to_server rounds sr w = do
      asked ← sr_read_from_server_expect rounds vns_auth_request sr w
      if not (goes_on asked.outcome) then ok (false, asked.world) else (do
        told ← sr_read_from_server_expect rounds vns_auth_status asked.sr asked.world
        if not (goes_on told.outcome)
            then ok (false, told.world)
            else (let sent = s.send told.world (open_message c) in
                if not sent.0
                then ok (false, sent.1)
                else if ltb 0 (length (c_string c.template))
                then (do
                  table ← sr_read_from_server_expect rounds vns_rtable told.sr sent.1
                  ok (goes_on table.outcome, table.world))
                else ok (true, sent.1)))
