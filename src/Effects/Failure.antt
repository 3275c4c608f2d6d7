-- ===== src/Effects/Failure.antt =====
-- Go's errors as values: what `fmt.Errorf` builds, with its format and the texts that it is given.
use zia.Base.{String, List}

pub data Error : Type 0 where
  external : Error  -- an error that a database, a server or a library returned
  errorf : String → List String → Error  -- a new error
  wrapf : String → Error → Error  -- `%w`: an error around another

pub data Result (A : Type 0) : Type 0 where
  ok : A → Result A
  err : Error → Result A
