-- ===== src/Tests/Archives/Splitting.antt =====
-- Examples of a split archive.
use sarc.Prelude.{
  ℕ, ◌+◌, ◌-◌, ◌^◌, ◌<◌, ◌≡◌, refl, Option, some, none, List, [], ◌∷◌, ◌++◌, arith, length,
  replicate, length-replicate, true, false, ◌%◌,
}
use sarc.Bytes.{Bytes, concat}
use sarc.Reader.{Fallible, panics, fails, got}
use sarc.Volumes.{VolumeWriter, create_volumes, writes, close, join_stream}
use sarc.Volumes.Filling.{Closed}
use sarc.Volumes.Writing.{close-writes}
use sarc.Volumes.Joining.{join_stream-close}
use sarc.Volume.{volume_overhead}

abbrev an_id : Bytes
an_id = replicate 16 4

abbrev some_sum : Bytes → Bytes
some_sum b = replicate 32 (length b % 256)

abbrev no_writer : VolumeWriter
no_writer = record {
  capacity = 0;
  id = [];
  index = 0;
  current = none;
  finished = [];
  closed = false;
}

abbrev writer_of : Fallible VolumeWriter → VolumeWriter
writer_of panics = no_writer
writer_of (fails e) = no_writer
writer_of (got v) = v

abbrev a_writer : VolumeWriter
a_writer = writer_of (create_volumes an_id 65536)

created : create_volumes an_id 65536 ≡ got a_writer
unfolding create_volumes
created = refl

abbrev some_writes : List Bytes
some_writes = (1 ∷ 2 ∷ []) ∷ (3 ∷ []) ∷ []

close-writes_example :
    (w : VolumeWriter) × (writes some_sum a_writer some_writes ≡ got w)
    × Closed some_sum an_id (65536 - volume_overhead) true (close some_sum w) (concat some_writes)
close-writes_example =
    close-writes some_sum an_id 65536 some_writes a_writer (length-replicate 16 4) created

abbrev written : VolumeWriter
written = writer_of (writes some_sum a_writer some_writes)

wrote : writes some_sum a_writer some_writes ≡ got written
unfolding writes sarc.Volumes.write sarc.Volumes.write_loop sarc.Volumes.write_turn create_volumes
    sarc.Volumes.open_volume sarc.Prelude.drop sarc.Volumes.fill_volume
wrote = refl

one_volume : length (close some_sum written).finished ≡ 1
unfolding close writes sarc.Volumes.write sarc.Volumes.write_loop sarc.Volumes.write_turn
    create_volumes sarc.Volumes.open_volume sarc.Prelude.drop sarc.Volumes.fill_volume
    sarc.Volumes.close_with sarc.Volumes.ready_volume sarc.Volumes.finish_volume
one_volume = refl

few : length (close some_sum written).finished < 2 ^ 32
few = omega (arith, one_volume)

join_stream-close_example :
    join_stream some_sum
      (length (close some_sum written).finished)
      1
      []
      (concat (close some_sum written).finished ++ (7 ∷ []))
    ≡ (concat some_writes, none)
join_stream-close_example =
    join_stream-close some_sum an_id 65536 some_writes a_writer written [] (7 ∷ [])
      (λ b. length-replicate 32 (length b % 256)) (length-replicate 16 4) (omega arith) created
      wrote few
