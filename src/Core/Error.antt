-- ===== src/Core/Error.antt =====
-- core/src/error.rs, and the client's errors in core/src/client.rs. Messages are not modelled.
use trsync.Core.Types.{ContentId, FilePath}

pub data TracimClientError : Type 0 where
  content_not_found content_already_exist content_deleted_or_archived : TracimClientError
  connection_error timeout_error : TracimClientError
  unknown prepare_error invalid_response authentication_error file_not_found : TracimClientError

pub data StateError : Type 0 where
  unexpected_error unknown_error : StateError
  unknown_content : ContentId → StateError
  path_already_exist : FilePath → ContentId → StateError

pub data ExecutorError : Type 0 where
  unexpected unexpected2 : ExecutorError
  tracim : TracimClientError → ExecutorError
  state : StateError → ExecutorError
  missing_parent : ContentId → ContentId → ExecutorError
  programmatic not_found_after_content_already_exist maximum_retry_count : ExecutorError
  related_local_file_io_error : FilePath → ExecutorError

pub data OperatorError : Type 0 where
  executor_error : ExecutorError → OperatorError
  state_error : StateError → OperatorError
  activity_error missing_parent_error unexpected : OperatorError
  client_error : TracimClientError → OperatorError
