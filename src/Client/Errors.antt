-- ===== src/Client/Errors.antt =====
-- `IsNotFoundError` and `IsAlreadyExistsError` of pkg/vcloud/client/client.go, on the error's text.
use csi_driver_bs.Base.{Bool, ◌||◌}
use csi_driver_bs.Text.{Text, str}
use csi_driver_bs.Text.Contains.{contains}

unfoldable pub is_not_found_error : Text → Bool
is_not_found_error e =
    contains e (str "404") || contains e (str "not found") || contains e (str "Not Found")

unfoldable pub is_already_exists_error : Text → Bool
is_already_exists_error e =
    contains e (str "409") || contains e (str "already exists") || contains e (str "Already Exists")
