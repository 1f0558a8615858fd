-- ===== src/SubManager/Platform.antt =====
-- What the sub-manager reconciler runs on: contexts, managers and goroutines, over a world that
-- also holds the cluster. `submanager.New` stands here as one call.
use ducks.Prelude.{String, List, Option, ℕ}
use ducks.Prelude.Exec.{Result}
use ducks.Schema.{GroupKind}
use ducks.Api.{ObjectMeta}

pub record Host : Type 1 where
  pub World : Type 0
  pub Error : Type 0
  pub Manager : Type 0
  pub Context : Type 0
  -- A goroutine, with the channel `done` on which it sends its result.
  pub Goroutine : Type 0
  pub Resource : Type 0
  pub meta : Resource → ObjectMeta
  -- `fmt.Errorf`
  pub error : String → Error
  pub new_sub_manager :
      Option Manager → Option ℕ → List GroupKind → World → Result Error Manager × World
  -- `context.WithCancel` and the function that it returns.
  pub with_cancel : World → Context × World
  pub cancel : Context → World → World
  -- `go func() { done <- mgr.Start(ctx) }()`
  pub go_start : Manager → Context → World → Goroutine × World
  -- `<-done`, which waits for the goroutine and ends it.
  pub wait : Goroutine → World → World
