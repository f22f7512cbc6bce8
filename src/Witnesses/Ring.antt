-- ===== src/Witnesses/Ring.antt =====
-- A ring of five servers, of which four are listed, for the tests of the membership.
use rain_strom_distributed_s.Prelude.{
  ℕ, refl, arith, Bool, false, [], ◌∷◌, String, str_eq, if◌then◌else◌,
}
use rain_strom_distributed_s.Config.{
  Config, ring_id, server_of, get_server_id_in_ring, get_mbits_of_hash,
}
use rain_strom_distributed_s.Membership.Types.{Tag, Entry, MembershipList, Message}
use rain_strom_distributed_s.Membership.Service.{Service}
use rain_strom_distributed_s.Membership.Table.Placed.{Inv}

abbrev pub places : String → ℕ
places s =
    if str_eq s "a"
    then 10
    else if str_eq s "b"
    then 20
    else if str_eq s "c"
    then 30
    else if str_eq s "d"
    then 40
    else 50

abbrev pub ring : Config
ring = record {
  server = "a" ∷ "b" ∷ "c" ∷ "d" ∷ "e" ∷ [];
  node_id = 1;
  peer_id = 10;
  sum32 = places;
}

abbrev pub member_of : ℕ → ℕ → Tag → Entry
member_of node peer status = record {
  node_id = node;
  time_stamp = 0;
  status = status;
  peer_id = peer;
}

abbrev pub four : MembershipList
four =
    member_of 1 10 Tag.active
    ∷ member_of 2 20 Tag.active
    ∷ member_of 3 30 Tag.active
    ∷ member_of 4 40 Tag.active
    ∷ []

abbrev pub one_suspected : MembershipList
one_suspected =
    member_of 1 10 Tag.active
    ∷ member_of 2 20 Tag.suspected
    ∷ member_of 3 30 Tag.active
    ∷ member_of 4 40 Tag.active
    ∷ []

pub four-Inv : Inv ring four
unfolding ring_id server_of get_server_id_in_ring get_mbits_of_hash
four-Inv = record {
  sorted = (omega arith, (omega arith, (omega arith, (omega arith, tt))));
  unique = (
    ((λ h. ground arith), ((λ h. ground arith), ((λ h. ground arith), tt))),
    (((λ h. ground arith), ((λ h. ground arith), tt)), (((λ h. ground arith), tt), (tt, tt))),
  );
  placed = (refl, (refl, (refl, (refl, tt))));
}

pub one_suspected-Inv : Inv ring one_suspected
one_suspected-Inv = record {
  sorted = four-Inv.sorted;
  unique = four-Inv.unique;
  placed = four-Inv.placed;
}

abbrev pub service : MembershipList → Bool → Service
service m sus = record {
  list = m;
  buffer = [];
  suspicion = sus;
  locked = false;
  failed_out = [];
  joined_out = [];
  timers = [];
  ack_chan_map = [];
  pings = [];
  next_chan = 0;
  outbox = [];
  servers = "a" ∷ "b" ∷ "c" ∷ "d" ∷ "e" ∷ [];
  server_id = 1;
  response_from_introducer = false;
}

abbrev pub news : Tag → ℕ → ℕ → Message
news tag node time = record { msg_type = tag; node_id = node; time_stamp = time }
