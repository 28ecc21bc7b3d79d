-- ===== src/Volumes.antt =====
-- io/volume.go: an archive that is split into volumes, and joined again. Calls of the file system do
-- not fail, and `sha256` is the hash of all the bytes that were written to a hash.Hash.
pub mod Holding
pub mod Filling
pub mod Writing
pub mod Joining
use sarc.Prelude.{
  ℕ, zero, suc, ◌+◌, ◌-◌, ◌*◌, ◌%◌, ◌^◌, Bool, true, false, not, Option, none, some, List, [], ◌∷◌,
  ◌++◌, String, min,
}
use sarc.Prelude.{ltb, ◌==◌, ◌!=◌, if◌then◌else◌, length, take, drop}
use sarc.Result
use sarc.Result.{Result}
use sarc.Bytes.{Bytes}
use sarc.Bytes.Slice.{bytes_eq, has_prefix}
use sarc.Volume.{
  VolumeHeader, marshal, parse_volume_header, is_volume_header, volume_header_size,
  volume_checksum_size, volume_overhead,
}
use sarc.Reader.{ArchiveError, fatal, invalid_option, Fallible, fails, got}

-- `MinVolumeSize`
abbrev pub min_volume_size : ℕ
min_volume_size = 64 * 2 ^ 10

-- A volume that is being written: what its file holds, and `written` and `sum` of the writer.
pub record OpenVolume : Type 0 where
  pub f : Bytes
  pub written : ℕ
  pub sum : Bytes

-- `VolumeWriter`; `finished` are the contents of the files in `paths` that are finished, in order.
pub record VolumeWriter : Type 0 where
  pub capacity : ℕ
  pub id : Bytes
  pub index : ℕ
  pub current : Option OpenVolume
  pub finished : List Bytes
  pub closed : Bool

-- `CreateVolumes`, with the ID that it draws
unfoldable pub create_volumes : Bytes → ℕ → Fallible VolumeWriter
create_volumes id volume_size =
    if ltb volume_size min_volume_size
    then fails (fatal invalid_option "volume size too small")
    else got (record {
      capacity = volume_size - volume_overhead;
      id = id;
      index = 0;
      current = none;
      finished = [];
      closed = false;
    })

-- the header of a writer's volume
abbrev pub header_of : VolumeWriter → Bool → ℕ → VolumeHeader
header_of v last payload_len = record {
  archive_id = v.id;
  index = v.index % 2 ^ 32;
  last = last;
  payload_len = payload_len;
}

-- `openVolume`
unfoldable pub open_volume : VolumeWriter → VolumeWriter
open_volume v =
    let next = record v { index = v.index + 1 } in
    record next {
      current =
          some (record { f = marshal (header_of next false next.capacity); written = 0; sum = [] });
    }

module _ (sha256 : Bytes → Bytes) where
  -- `finishVolume`: the header is written over the first bytes of the file, the checksum at its end
  unfoldable pub finish_volume : VolumeWriter → OpenVolume → Bool → VolumeWriter
  finish_volume v o last =
      let header = marshal (header_of v last o.written) in
      record v {
        current = none;
        finished =
            v.finished ++ ((header ++ drop (length header) o.f) ++ sha256 (o.sum ++ header)) ∷ [];
      }

  -- the rest of a turn of `Write`, with a volume that has room for `n` of the bytes
  unfoldable pub fill_volume : VolumeWriter → OpenVolume → ℕ → Bytes → VolumeWriter
  fill_volume v o n p = record v {
    current =
        some (record { f = o.f ++ take n p; written = o.written + n; sum = o.sum ++ take n p });
  }

  -- a turn of the loop of `Write`: the writer, and the bytes that are left
  unfoldable pub write_turn : VolumeWriter → Option OpenVolume → Bytes → VolumeWriter × Bytes
  write_turn v none p = (open_volume v, p)
  write_turn v (some o) p =
      if o.written == v.capacity
      then (finish_volume v o false, p)
      else (let n = min (length p) (v.capacity - o.written) in (fill_volume v o n p, drop n p))

  abbrev pub go_on :
      VolumeWriter × Bytes → (VolumeWriter → Bytes → Fallible VolumeWriter) → Fallible VolumeWriter
  go_on (v, p) rest = rest v p

  -- the loop of `Write`
  unfoldable pub write_loop : ℕ → VolumeWriter → Bytes → Fallible VolumeWriter
  write_loop fuel v [] = got v
  write_loop zero v (x ∷ p) = Fallible.panics
  write_loop (suc fuel) v (x ∷ p) = go_on (write_turn v v.current (x ∷ p)) (write_loop fuel)

  -- `Write`: at most three turns for each byte
  unfoldable pub write : VolumeWriter → Bytes → Fallible VolumeWriter
  write v p = write_loop (3 * length p) v p

  -- the volume that `Close` finishes, which it opens if none is
  unfoldable pub ready_volume : VolumeWriter → Option OpenVolume → VolumeWriter
  ready_volume v none = open_volume v
  ready_volume v (some o) = v

  unfoldable pub close_with : VolumeWriter → Option OpenVolume → VolumeWriter
  close_with v (some o) = finish_volume v o true
  close_with v none = v

  -- `Close`, less the removal of stale volumes
  unfoldable pub close : VolumeWriter → VolumeWriter
  close v =
      if v.closed
      then v
      else (let w = record v { closed = true } in
          let ready = ready_volume w w.current in close_with ready ready.current)

  abbrev pub and_then :
      Fallible VolumeWriter → (VolumeWriter → Fallible VolumeWriter) → Fallible VolumeWriter
  and_then Fallible.panics f = Fallible.panics
  and_then (fails e) f = fails e
  and_then (got v) f = f v

  -- some calls of `Write`, one after the other
  unfoldable pub writes : VolumeWriter → List Bytes → Fallible VolumeWriter
  writes v [] = got v
  writes v (p ∷ ps) = and_then (write v p) (λ w. writes w ps)

-- `VolumeError`, less the path and the numbers in its text
pub record VolumeError : Type 0 where
  pub index : ℕ
  pub problem : String

abbrev pub volume_error : ℕ → String → VolumeError
volume_error index problem = record { index = index; problem = problem }

-- `checkVolumeHeader`; none is ""
unfoldable pub check_volume_header : VolumeHeader → Bytes → ℕ → Option String
check_volume_header h id index =
    if not (bytes_eq h.archive_id id)
    then some "belongs to a different archive"
    else if h.index != index % 2 ^ 32
    then some "out of order"
    else none

-- What reading a volume delivers: its bytes so far and the error that ends them, or all its bytes, its
-- header, and what follows it.
pub data VolumeRead : Type 0 where
  cut_off : Bytes → VolumeError → VolumeRead
  whole : Bytes → VolumeHeader → Bytes → VolumeRead

module _ (sha256 : Bytes → Bytes) where
  -- `finishVolume` of a VolumeReader, behind the payload
  unfoldable pub verify_volume : ℕ → VolumeHeader → Bytes → Bytes → Bytes → VolumeRead
  verify_volume index h header payload b =
      if ltb (length b) volume_checksum_size
      then cut_off payload (volume_error index "truncated: the volume checksum is missing")
      else if not (bytes_eq (sha256 (payload ++ header)) (take volume_checksum_size b))
      then cut_off payload (volume_error index "corrupted: checksum mismatch")
      else whole payload h (drop volume_checksum_size b)

  -- the payload, as `Read` delivers it
  unfoldable pub read_payload : ℕ → VolumeHeader → Bytes → Bytes → VolumeRead
  read_payload index h header b =
      if ltb (length b) h.payload_len
      then cut_off b (volume_error index "truncated: the volume ends before its declared length")
      else verify_volume index h header (take h.payload_len b) (drop h.payload_len b)

  unfoldable pub checked_payload : Option String → ℕ → VolumeHeader → Bytes → Bytes → VolumeRead
  checked_payload (some problem) index h header b = cut_off [] (volume_error index problem)
  checked_payload none index h header b = read_payload index h header b

  -- `vr.id` once the header of volume `index` was parsed
  abbrev pub archive_of : ℕ → Bytes → VolumeHeader → Bytes
  archive_of index id h = if index == 1 then h.archive_id else id

  unfoldable pub parsed_volume : Result VolumeHeader → ℕ → Bytes → Bytes → Bytes → VolumeRead
  parsed_volume (Result.ok h) index id header b =
      checked_payload (check_volume_header h (archive_of index id h) index) index h header b
  parsed_volume _ index id header b = cut_off [] (volume_error index "not a sarc volume")

  -- `openNext`, and what `Read` does until the volume is finished
  unfoldable pub read_volume : ℕ → Bytes → Bytes → VolumeRead
  read_volume index id b =
      if ltb (length b) volume_header_size
      then cut_off [] (volume_error index "missing or truncated volume header")
      else parsed_volume (parse_volume_header (take volume_header_size b)) index id
          (take volume_header_size b) (drop volume_header_size b)

  -- What reading all of a VolumeReader delivers, and the error that ends it, if it is not io.EOF; with
  -- the volumes that are left.
  abbrev pub Joined : Type 0
  Joined = Bytes × Option VolumeError

  abbrev pub append_joined : Bytes → Joined → Joined
  append_joined payload (more, e) = (payload ++ more, e)

  abbrev pub after_volume : VolumeRead → (VolumeHeader → Bytes → Joined) → Joined
  after_volume (cut_off payload e) rest = (payload, some e)
  after_volume (whole payload h b) rest =
      if h.last then (payload, none) else append_joined payload (rest h b)

  -- Of volumes back to back in one stream (`NewVolumeStreamReader`), from volume `index` on.
  unfoldable pub join_stream : ℕ → ℕ → Bytes → Bytes → Joined
  join_stream zero index id b = ([], some (volume_error index "missing or truncated volume header"))
  join_stream (suc fuel) index id b =
      after_volume (read_volume index id b)
        λ h b'. join_stream fuel (index + 1) (archive_of index id h) b'

  -- Of volumes in files (`OpenVolumes`): the next file is missing, or is read from its start.
  unfoldable pub read_file : Option Bytes → ℕ → Bytes → VolumeRead
  read_file none index id = cut_off [] (volume_error index "missing")
  read_file (some b) index id = read_volume index id b

  unfoldable pub join_files : List Bytes → ℕ → Bytes → Joined
  join_files [] index id = after_volume (read_file none index id) (λ h b. ([], none))
  join_files (f ∷ fs) index id =
      after_volume (read_file (some f) index id)
        λ h b. join_files fs (index + 1) (archive_of index id h)

-- `readVolumeHeader`, of a file that is there
unfoldable pub stat_header : Bytes → Option VolumeHeader
stat_header b =
    if ltb (length b) volume_header_size
    then none
    else elim (parse_volume_header (take volume_header_size b)) [ Result.ok h ↦ some h | _ ↦ none ]

-- a turn of `checkVolumeSet`, with the turns that are left
unfoldable pub check_header_size :
    Option String → VolumeHeader → ℕ → ℕ → Option VolumeError → Option VolumeError
check_header_size (some problem) h size index rest = some (volume_error index problem)
check_header_size none h size index rest =
    if size != volume_overhead + h.payload_len
    then some (volume_error index "truncated or padded")
    else if h.last
    then none
    else rest

unfoldable pub check_volume :
    Option VolumeHeader → ℕ → ℕ → Bytes → (Bytes → Option VolumeError) → Option VolumeError
check_volume none size index id rest = some (volume_error index "not a sarc volume")
check_volume (some h) size index id rest =
    let id' = if index == 1 then h.archive_id else id in
    check_header_size (check_volume_header h id' index) h size index (rest id')

-- `checkVolumeSet` of the files base.001, base.002, ... that are there
unfoldable pub check_volume_set : List Bytes → ℕ → Bytes → Option VolumeError
check_volume_set [] index id = some (volume_error index "missing")
check_volume_set (f ∷ fs) index id =
    check_volume (stat_header f) (length f) index id (check_volume_set fs (index + 1))
