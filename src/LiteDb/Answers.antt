-- ===== src/LiteDb/Answers.antt =====
-- `HasBlobs` of the local database and of the blob database.
use reflector_go.LiteDb
use reflector_go.Db.Lookup
use reflector_go.Db.Lookup.{Found, truth_at}
use reflector_go.Db.Tables.{Tables}
use reflector_go.Errors.{Result, ok, err}
use reflector_go.Prelude.Dict.{Dict}
use reflector_go.Prelude.{Bool}

abbrev exists_of : Result Found × Tables → Result (Dict Bool) × Tables
exists_of (ok found, t) = (ok found.exists, t)
exists_of (err e, t) = (err e, t)
