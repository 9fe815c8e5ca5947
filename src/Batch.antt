-- ===== src/Batch.antt =====
-- session.go: the state of a batch, and the environment that it runs in.
-- `log` holds what the batch has done to the outside, newest first: frames written, handler calls,
-- writes to the receive file. The environment answers each call by a function of that history:
-- every deterministic handler, file and transport is such a function. `clock` is `time.Now()`; the
-- event loop advances it. `files` is what `NextFile` has still to answer, before its final nil.
pub mod Send
pub mod Receive
pub mod Device
pub mod Loop
pub mod Induction
pub mod Phases
pub mod Offers
pub mod Arrivals
pub mod Storage
pub mod Negotiation
pub mod Completion
pub mod Silence
pub mod Deadline
pub mod Frames
pub mod Logging
pub mod Defaults
pub mod Delivery
pub mod Transfer
pub mod Sample
mod Runs
use go_hydra.Base.{
  ℕ, ◌+◌, ◌/◌, Bool, true, false, List, [], ◌∷◌, Option, none, some, leb, ltb, ◌==◌, if◌then◌else◌,
  ◌&&◌, Bytes,
}
use go_hydra.Base.Int.{ℤ, pos, pos_part, ltb_ℤ}
use go_hydra.Constants.{cap_assumed}
use go_hydra.BlockSize.{BlockSizer, new_block_sizer}
use go_hydra.Config.{Error, FileOffer, FileInfo, Config}
use go_hydra.Packet.Device.{DevDataPkt}

pub data TxState : Type 0 where
  start swait init init_ack rinit finfo finfo_ack xdata data_ack xwait : TxState
  eof eof_ack rend end end_ack done : TxState

-- The order of the Go constants, which range tests use.
abbrev pub rank : TxState → ℕ
rank start = 0
rank swait = 1
rank init = 2
rank init_ack = 3
rank rinit = 4
rank finfo = 5
rank finfo_ack = 6
rank xdata = 7
rank data_ack = 8
rank xwait = 9
rank eof = 10
rank eof_ack = 11
rank rend = 12
rank end = 13
rank end_ack = 14
rank done = 15

pub data RxState : Type 0 where
  rx_init rx_finfo rx_data rx_done : RxState

pub data DevState : Type 0 where
  dev_done dev_data dev_dack : DevState

-- What the batch does to the outside; `announced` only marks that a FINFO has been understood.
pub data Event : Type 0 where
  autostarted : Event
  sent : ℕ → Bytes → ℕ → Bytes → Event
  offered : FileOffer → Event
  no_more_files : Event
  offer_closed : FileOffer → Event
  sought : ℕ → Event
  tx_progress : FileInfo → ℕ → Event
  tx_completed : FileInfo → ℕ → Option Error → Event
  announced : FileInfo → Event
  accepted : FileInfo → ℤ → Event
  stored : Bytes → Event
  rx_closed : Event
  rx_progress : FileInfo → ℤ → Event
  rx_completed : FileInfo → ℕ → Option Error → Event
  delivered : Bytes → Bytes → Event

-- `AcceptFile`: whether there is a writer, the offset and the error.
pub record Answer : Type 0 where
  pub has_writer : Bool
  pub offset : ℤ
  pub err : Option Error

pub data Source : Type 0 where
  content : Bytes → Source
  broken : Error → Source

-- `source log n` is `io.ReadFull` into `n` bytes: at most `n`, fewer at the end of the file.
pub record Environment : Type 0 where
  pub transport : List Event → Option Error
  pub source : List Event → ℕ → Source
  pub seek : List Event → ℕ → Option Error
  pub accept_file : List Event → FileInfo → Answer
  pub store : List Event → Bytes → Option Error
  pub has_device_handler : Bool

pub record Tx : Type 0 where
  pub state : TxState
  pub timer : Option ℕ
  pub retries : ℕ
  pub sync_id : ℕ
  pub blk : BlockSizer
  pub last_ack : ℕ
  pub peer_acked : Bool
  pub hdxlink : Bool
  pub offer : Option FileOffer
  pub info : FileInfo
  pub position : ℕ
  pub skip : Bool
  pub err : Option Error
  pub eob : Bool
  pub last_finfo : Option Bytes
  pub files_sent : ℕ
  pub batch_ended : Bool
  pub finfo_ack_wait : Bool
  pub eof_ack_wait : Bool
  pub seeker : Bool
  pub productive : Bool

pub record Rx : Type 0 where
  pub state : RxState
  pub files_rcvd : ℕ
  pub last_refused : Option (Bytes × ℤ)
  pub writer : Bool
  pub open_file : Bool
  pub info : FileInfo
  pub position : ℤ
  pub retries : ℕ
  pub sync_id : ℕ
  pub last_sync : ℤ
  pub timer : Option ℕ
  pub blk_len : ℕ

pub record Dev : Type 0 where
  pub state : DevState
  pub retries : ℕ
  pub tx_id : ℕ
  pub rx_id : ℕ
  pub pending : Option DevDataPkt
  pub queue : List DevDataPkt
  pub timer : Option ℕ

-- `rx_opts` and `negotiated` are the session's fields of those names; its `effOpts` is `opts`.
pub record Link : Type 0 where
  pub opts : ℕ
  pub rx_opts : ℕ
  pub negotiated : Bool
  pub tx_window : ℕ
  pub rx_window : ℕ
  pub prefix : Bytes
  pub braindead : Option ℕ

pub record Batch : Type 0 where
  pub cfg : Config
  pub link : Link
  pub tx : Tx
  pub rx : Rx
  pub dev : Dev
  pub files : List FileOffer
  pub log : List Event
  pub clock : ℕ

-- A step that may fail: the state is kept, since the teardown runs on it.
pub data Ran : Type 0 where
  ok : Batch → Ran
  fail : Error → Batch → Ran

infixl 5 ◌>>=◌
abbrev pub ◌>>=◌ : Ran → (Batch → Ran) → Ran
ok b >>= f = f b
fail e b >>= f = fail e b

abbrev pub no_info : FileInfo
no_info = record {
  name = [];
  path = [];
  size = pos 0;
  mod_time = none;
  file_num = 0;
  file_total = 0;
}

unfoldable pub new_batch : Config → List FileOffer → Batch
new_batch cfg files = record {
  cfg = cfg;
  link = record {
    opts = 0;
    rx_opts = cap_assumed;
    negotiated = false;
    tx_window = 0;
    rx_window = 0;
    prefix = [];
    braindead = none;
  };
  tx = record {
    state = start;
    timer = none;
    retries = 0;
    sync_id = 0;
    blk = new_block_sizer cfg.effective_baud cfg.max_block_size;
    last_ack = 0;
    peer_acked = false;
    hdxlink = false;
    offer = none;
    info = no_info;
    position = 0;
    skip = false;
    err = none;
    eob = false;
    last_finfo = none;
    files_sent = 0;
    batch_ended = false;
    finfo_ack_wait = false;
    eof_ack_wait = false;
    seeker = false;
    productive = false;
  };
  rx = record {
    state = rx_init;
    files_rcvd = 0;
    last_refused = none;
    writer = false;
    open_file = false;
    info = no_info;
    position = pos 0;
    retries = 0;
    sync_id = 0;
    last_sync = pos 0;
    timer = none;
    blk_len =
        if ltb_ℤ (pos 0) cfg.effective_baud && ltb_ℤ cfg.effective_baud (pos 2400)
        then 256
        else 512;
  };
  dev = record {
    state = dev_done;
    retries = 0;
    tx_id = 0;
    rx_id = 0;
    pending = none;
    queue = [];
    timer = none;
  };
  files = files;
  log = [];
  clock = 0;
}

abbrev pub note : Batch → Event → Batch
note b e = record b { log = e ∷ b.log }

-- `writePacket` with given options: the frame reaches the log only where the transport takes it.
unfoldable pub write_with : Environment → Batch → ℕ → Bytes → ℕ → Ran
write_with env b typ payload opts = elim (env.transport b.log) [
  | none ↦ ok (note b (sent typ payload opts b.link.prefix))
  | some e ↦ fail e b
]

-- `batch.write`.
abbrev pub write : Environment → Batch → ℕ → Bytes → Ran
write env b typ payload = write_with env b typ payload b.link.opts

-- `writeRaw`, of which the log keeps only that it was done.
abbrev pub write_raw : Environment → Batch → Event → Ran
write_raw env b what = elim (env.transport b.log) [ none ↦ ok (note b what) | some e ↦ fail e b ]

unfoldable pub feed_braindead : Batch → Batch
feed_braindead b = record b {
  link = record b.link { braindead = some (b.clock + pos_part b.cfg.brain_dead) };
}

-- `txTimer` set to `d` from now.
abbrev pub arm : Batch → ℕ → Batch
arm b d = record b { tx = record b.tx { timer = some (b.clock + d) } }

unfoldable pub arm_tx : Batch → Batch
arm_tx b = arm b (if ltb 0 b.tx.retries then pos_part b.cfg.timeout / 2 else pos_part b.cfg.timeout)

abbrev pub set_tx_state : Batch → TxState → Batch
set_tx_state b s = record b { tx = record b.tx { state = s } }

-- The timer off, no retries, and the next state.
abbrev pub settle : Batch → TxState → Batch
settle b s = record b { tx = record b.tx { timer = none; retries = 0; state = s } }

-- A file that is to be given up goes to EOF(-2).
abbrev pub give_up : Batch → Option Error → Batch
give_up b e = record b { tx = record b.tx { err = e; skip = true; state = eof } }
