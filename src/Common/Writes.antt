-- ===== src/Common/Writes.antt =====
-- What an append to a journal comes to: `asngn_wal_append` of src/wal.c on `asngn_stream_append` of
-- src/stream.c, where the stream syncs.
use asterism_asngn.Common.Errors.{AsngnErr}

-- `written` is `ASNGN_OK`. After `failed` the next scan finds no such frame: nothing was written, what
-- was written has been truncated, or it ends inside the frame. After `unsynced` the whole frame is in
-- the file although the call returned `ASNGN_ERR_IO`: the fsync failed, or the truncation after a failed
-- flush.
pub data Wrote : Type 0 where
  written : Wrote
  failed : AsngnErr → Wrote
  unsynced : Wrote
