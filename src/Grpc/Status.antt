-- ===== src/Grpc/Status.antt =====
-- src/api/grpc/error.rs: the gRPC status that an error of the outbox becomes, by
-- its code.
use blink_lightning_gateway.Symphony.Client.{Code, unavailable, failed_precondition}
use blink_lightning_gateway.Outbox.Store.{
  OutboxError, db, metadata, listen_disconnected, unreadable, configuration,
}

-- `From<OutboxError> for Status`
unfoldable pub from_outbox_error : OutboxError → Code
from_outbox_error (configuration msg) = failed_precondition
from_outbox_error listen_disconnected = unavailable
from_outbox_error db = unavailable
from_outbox_error metadata = unavailable
from_outbox_error (unreadable e) = unavailable
