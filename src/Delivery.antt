-- ===== src/Delivery.antt =====
-- internal/delivery, and the interface that both deliveries call.
pub mod Http
pub mod Common
pub mod Rest
pub mod Grpc
pub mod Agreement
pub mod Answered
use rkn_checker.Prelude.{Option, Result}
use rkn_checker.Text.{Bytes}
use rkn_checker.Domain.Url.{DomainError}
use rkn_checker.Domain.Blocking.{BlockingResult}
use rkn_checker.Service.{BlockingStats}

-- BlockingChecker, at a moment; a nil pointer is `none`
pub record BlockingChecker : Type 0 where
  pub check_url : Bytes → Result DomainError (Option BlockingResult)
  pub get_stats : Result DomainError (Option BlockingStats)
