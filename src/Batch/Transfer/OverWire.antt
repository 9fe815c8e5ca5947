-- ===== src/Batch/Transfer/OverWire.antt =====
-- From the writer's bytes through the reader into the receiver's file.
use go_hydra.Base.{ℕ, ◌+◌, ◌≤◌, List, [], ◌∷◌, Bytes, IsBytes, length}
use go_hydra.Packet.{Packet}
use go_hydra.Reader.{Reader}
use go_hydra.Batch.{Batch}
use go_hydra.Batch.Loop.{Item, arrived}
use go_hydra.Batch.Transfer.{data_packet}

-- What the reader pushes into the inbox.
abbrev pub all_arrived : List Packet → List Item
all_arrived [] = []
all_arrived (p ∷ pkts) = arrived p ∷ all_arrived pkts

abbrev pub data_packets : ℕ → List Bytes → List Packet
data_packets p [] = []
data_packets p (block ∷ blocks) = data_packet p block ∷ data_packets (p + length block) blocks

-- A block that a DATA packet can carry.
abbrev pub IsBlock : Bytes → Type 0
IsBlock block = IsBytes block × (length block ≤ 2048)
