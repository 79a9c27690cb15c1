-- ===== src/Shared.antt =====
-- shared/shared.go: the trace of a blob's way through the stores. A trace is its list of origin
-- names; the times and the host name of each entry are measurements and are left out.
use reflector_go.Prelude.{List, [], ◌∷◌, ◌++◌, Str}

abbrev pub BlobTrace : Type 0
BlobTrace = List Str

-- `b.Stack(timing, originName)`
abbrev pub stack : BlobTrace → Str → BlobTrace
stack b origin_name = b ++ (origin_name ∷ [])

-- `b.Merge(otherTrace)`
abbrev pub merge : BlobTrace → BlobTrace → BlobTrace
merge b other = b ++ other

-- `NewBlobTrace(timing, originName)`
abbrev pub new_blob_trace : Str → BlobTrace
new_blob_trace origin_name = origin_name ∷ []
