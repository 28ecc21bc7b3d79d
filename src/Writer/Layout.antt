-- ===== src/Writer/Layout.antt =====
-- The bytes of an archive's parts, as the layouts of archive/format.go describe them.
use sarc.Prelude.{ℕ, ◌+◌, List, [], ◌∷◌, ◌++◌, length, replicate}
use sarc.Bytes.{Bytes}
use sarc.Bytes.LittleEndian.{le}
use sarc.Crypto.{nonce_size}
use sarc.Format.{ArchiveHeader, MetadataBlock, DataBlock, FileTrailer, FileEntry}

abbrev pub sized : Bytes → Bytes
sized b = le 4 (length b) ++ b

unfoldable pub data_block : DataBlock → Bytes
data_block db = db.nonce ++ sized db.ciphertext

unfoldable pub data_blocks : List DataBlock → Bytes
data_blocks [] = []
data_blocks (db ∷ dbs) = data_block db ++ data_blocks dbs

unfoldable pub trailer : FileTrailer → Bytes
trailer t =
    sized t.random_padding
    ++ (t.plaintext_hmac_nonce ++ (sized t.plaintext_hmac_sealed ++ t.entry_checksum))

-- padding, data blocks, a block of no bytes, the trailer
unfoldable pub entry_body : FileEntry → Bytes
entry_body e =
    sized e.inter_block_pad
    ++ (data_blocks e.data_blocks ++ (replicate (nonce_size + 4) 0 ++ trailer e.trailer))

-- what precedes an entry's body
unfoldable pub entry_head : ℕ → Bytes → Bytes → MetadataBlock → Bytes
entry_head entry_type salt frame_hdr meta =
    (entry_type ∷ []) ++ (salt ++ (frame_hdr ++ (meta.nonce ++ sized meta.ciphertext)))

abbrev pub entry : FileEntry → Bytes
entry e = entry_head e.entry_type e.entry_salt e.frame_hdr e.metadata ++ entry_body e

unfoldable pub header : ArchiveHeader → Bytes
header h =
    h.magic
    ++ (le 2 h.version ++ (sized h.recipient_block ++ (h.file_count_encrypted ++ h.reserved)))
