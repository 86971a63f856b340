-- ===== src/EvName/Names.antt =====
-- ev_name/ename.go: the identifiers of the constants, in the order of the block.
use goesl.Base.{List, [], ◌∷◌, Bytes, codes}

-- The constant with the identifier at index i has the value i (`iota`).
unfoldable pub event_names : List Bytes
event_names =
    codes "CUSTOM"
    ∷ codes "CLONE"
    ∷ codes "CHANNEL_CREATE"
    ∷ codes "CHANNEL_DESTROY"
    ∷ codes "CHANNEL_STATE"
    ∷ codes "CHANNEL_CALLSTATE"
    ∷ codes "CHANNEL_ANSWER"
    ∷ codes "CHANNEL_HANGUP"
    ∷ codes "CHANNEL_HANGUP_COMPLETE"
    ∷ codes "CHANNEL_EXECUTE"
    ∷ codes "CHANNEL_EXECUTE_COMPLETE"
    ∷ codes "CHANNEL_HOLD"
    ∷ codes "CHANNEL_UNHOLD"
    ∷ codes "CHANNEL_BRIDGE"
    ∷ codes "CHANNEL_UNBRIDGE"
    ∷ codes "CHANNEL_PROGRESS"
    ∷ codes "CHANNEL_PROGRESS_MEDIA"
    ∷ codes "CHANNEL_OUTGOING"
    ∷ codes "CHANNEL_PARK"
    ∷ codes "CHANNEL_UNPARK"
    ∷ codes "CHANNEL_APPLICATION"
    ∷ codes "CHANNEL_ORIGINATE"
    ∷ codes "CHANNEL_UUID"
    ∷ codes "API"
    ∷ codes "LOG"
    ∷ codes "INBOUND_CHAN"
    ∷ codes "OUTBOUND_CHAN"
    ∷ codes "STARTUP"
    ∷ codes "SHUTDOWN"
    ∷ codes "PUBLISH"
    ∷ codes "UNPUBLISH"
    ∷ codes "TALK"
    ∷ codes "NOTALK"
    ∷ codes "SESSION_CRASH"
    ∷ codes "MODULE_LOAD"
    ∷ codes "MODULE_UNLOAD"
    ∷ codes "DTMF"
    ∷ codes "MESSAGE"
    ∷ codes "PRESENCE_IN"
    ∷ codes "NOTIFY_IN"
    ∷ codes "PRESENCE_OUT"
    ∷ codes "PRESENCE_PROBE"
    ∷ codes "MESSAGE_WAITING"
    ∷ codes "MESSAGE_QUERY"
    ∷ codes "ROSTER"
    ∷ codes "CODEC"
    ∷ codes "BACKGROUND_JOB"
    ∷ codes "DETECTED_SPEECH"
    ∷ codes "DETECTED_TONE"
    ∷ codes "PRIVATE_COMMAND"
    ∷ codes "HEARTBEAT"
    ∷ codes "TRAP"
    ∷ codes "ADD_SCHEDULE"
    ∷ codes "DEL_SCHEDULE"
    ∷ codes "EXE_SCHEDULE"
    ∷ codes "RE_SCHEDULE"
    ∷ codes "RELOADXML"
    ∷ codes "NOTIFY"
    ∷ codes "PHONE_FEATURE"
    ∷ codes "PHONE_FEATURE_SUBSCRIBE"
    ∷ codes "SEND_MESSAGE"
    ∷ codes "RECV_MESSAGE"
    ∷ codes "REQUEST_PARAMS"
    ∷ codes "CHANNEL_DATA"
    ∷ codes "GENERAL"
    ∷ codes "COMMAND"
    ∷ codes "SESSION_HEARTBEAT"
    ∷ codes "CLIENT_DISCONNECTED"
    ∷ codes "SERVER_DISCONNECTED"
    ∷ codes "SEND_INFO"
    ∷ codes "RECV_INFO"
    ∷ codes "RECV_RTCP_MESSAGE"
    ∷ codes "CALL_SECURE"
    ∷ codes "NAT"
    ∷ codes "RECORD_START"
    ∷ codes "RECORD_STOP"
    ∷ codes "PLAYBACK_START"
    ∷ codes "PLAYBACK_STOP"
    ∷ codes "CALL_UPDATE"
    ∷ codes "FAILURE"
    ∷ codes "SOCKET_DATA"
    ∷ codes "MEDIA_BUG_START"
    ∷ codes "MEDIA_BUG_STOP"
    ∷ codes "CONFERENCE_DATA_QUERY"
    ∷ codes "CONFERENCE_DATA"
    ∷ codes "CALL_SETUP_REQ"
    ∷ codes "CALL_SETUP_RESULT"
    ∷ codes "CALL_DETAIL"
    ∷ codes "DEVICE_STATE"
    ∷ codes "ALL"
    ∷ []
